-- ===== src/Elzma/Names/RoundTrip.antt =====
-- The names that the tool in elzma/elzma.c makes when it compresses, and then when it decompresses.
use easylzma.Common.{
  ℕ, ◌+◌, ◌-◌, ◌≤◌, ◌<◌, ◌≡◌, ◌≢◌, refl, sym, ap, ◌∙◌, ◌⊎◌, inl, inr, true, false, [], ◌∷◌, ◌++◌,
  some, ok, fault, out_of_bounds, length, take, drop, arith, length-append, length-take, Bool-cases,
}
use easylzma.Common.Strings.{Str, same_refl, same-eq, drop-append, take-append, take-drop}
use easylzma.Api.{FileFormat, lzip, lzma, other}
use easylzma.Elzma.Names.{
  lzma_ext, lzip_ext, ext_of, compress_name, decompress_name, has_ext, name_format,
}

behind : (name ext : Str) → length (name ++ ext) - length ext ≡ length name
behind name ext = omega (arith, length-append name ext)

has_ext-append : (name ext : Str) → name ≢ [] → has_ext ext (name ++ ext) ≡ true
has_ext-append [] ext some_name = absurd (some_name refl)
has_ext-append (c ∷ name) ext some_name =
    rw (behind (c ∷ name) ext, drop-append (c ∷ name) ext)
      (ground (arith, same_refl ext, length-append name ext))

-- The last character of a string.
last : Str → ℕ
last [] = 0
last (c ∷ []) = c
last (c ∷ d ∷ s) = last (d ∷ s)

last-append : (s t : Str) → t ≢ [] → last (s ++ t) ≡ last t
unfolding last
last-append [] t some_t = refl
last-append (c ∷ []) [] some_t = absurd (some_t refl)
last-append (c ∷ []) (d ∷ t) some_t = refl
last-append (c ∷ d ∷ s) t some_t = last-append (d ∷ s) t some_t

-- A name with an extension ends with the extension's last character.
has_ext-last : (ext s : Str) → ext ≢ [] → has_ext ext s ≡ true → last s ≡ last ext
has_ext-last ext s some_ext h =
    let n = length s - length ext in
    let back : ext ≡ drop n s = same-eq ext (drop n s) (ground arith) in
    ap last (sym (take-drop n s) ∙ ap (λ t. take n s ++ t) (sym back))
    ∙ last-append (take n s) ext some_ext

lzip_not_lzma : (name : Str) → has_ext lzma_ext (name ++ lzip_ext) ≡ false
unfolding last
lzip_not_lzma name = elim (Bool-cases (has_ext lzma_ext (name ++ lzip_ext))) [
  | inr h ↦ h
  | inl h ↦
      let a = has_ext-last lzma_ext (name ++ lzip_ext) (λ e. cc) h in
      let b = last-append name lzip_ext (λ e. cc) in absurd (omega arith)
]

compress_name_lem :
    (usable : ℕ → ℕ) (name : Str) (format : FileFormat)
    → ((n : ℕ) → n ≤ usable n)
    → compress_name usable name format ≡ ok (name ++ ext_of format)
unfolding compress_name
compress_name_lem usable name format fits =
    let room = fits (length name + length (ext_of format) + 1) in
    let size = length-append name (ext_of format) in ground arith

decompress_name_lem :
    (usable : ℕ → ℕ) (name ext : Str)
    → ((n : ℕ) → n < usable n)
    → decompress_name usable (name ++ ext) ext ≡ ok name
unfolding decompress_name
decompress_name_lem usable name ext fits =
    rw (behind name ext, take-append name ext) (ground (arith, fits (length name)))

name_format_lem :
    (name : Str) (format : FileFormat)
    → name ≢ []
    → (format ≡ lzip) ⊎ (format ≡ lzma)
    → name_format (name ++ ext_of format) ≡ some (format, ext_of format)
unfolding name_format
name_format_lem name lzip some_name known =
    rw (lzip_not_lzma name, has_ext-append name lzip_ext some_name) refl
name_format_lem name lzma some_name known = rw (has_ext-append name lzma_ext some_name) refl
name_format_lem name (other n) some_name known = absurd (ground arith)

-- For a file name that is not empty, an allocator whose blocks hold at least one byte more than was
-- asked for, and either format: compressing names its output, decompressing recognises the format
-- of that name, and the name that decompressing then makes for its own output is the first name.
pub name_format-compress_name :
    (usable : ℕ → ℕ) (name : Str) (format : FileFormat)
    → ((n : ℕ) → n < usable n)
    → name ≢ []
    → (format ≡ lzip) ⊎ (format ≡ lzma)
    → (out : Str) × (compress_name usable name format ≡ ok out)
      × (name_format out ≡ some (format, ext_of format))
      × (decompress_name usable out (ext_of format) ≡ ok name)
name_format-compress_name usable name format fits some_name known = (
  name ++ ext_of format,
  compress_name_lem usable name format (λ n. omega (arith, fits n)),
  name_format_lem name format some_name known,
  decompress_name_lem usable name (ext_of format) fits,
)

-- When the allocator gives exactly what was asked for, making the name of the output file of a
-- decompression writes past the end of the block, for every input name and extension.
pub decompress_name-faults :
    (name ext : Str) → decompress_name (λ n. n) name ext ≡ fault out_of_bounds
unfolding decompress_name
decompress_name-faults name ext =
    let size = length-take (length name - length ext) name (omega arith) in ground arith
