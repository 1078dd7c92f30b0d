-- ===== src/Elzma/Compressing.antt =====
-- `doCompress` of elzma/elzma.c.
pub mod Quiet
pub mod Deletes
use easylzma.Common.{
  ℕ, ◌+◌, ◌%◌, ◌^◌, Bool, true, false, not, List, [], ◌∷◌, ◌++◌, Option, none, some, ltb, ◌==◌,
  if◌then◌else◌, Outcome, ok, fault, null_pointer, ◌>>=◌, length,
}
use easylzma.Common.Strings.{Str, codes}
use easylzma.Format.{FileHeader}
use easylzma.Api.{FileFormat, lzip, lzma, ProgressCallback, elzma_e_ok}
use easylzma.Alloc.{Runtime}
use easylzma.Sdk.{Crc, Encoder}
use easylzma.DictSize.{elzma_get_dict_size}
use easylzma.Compress.{
  CompressHandle, elzma_compress_alloc, elzma_compress_config, elzma_compress_free,
}
use easylzma.Compress.Run.{Returned, elzma_compress_run}
use easylzma.Elzma.Args.{CompressArgs, parse_compress_args}
use easylzma.Elzma.Names.{ext_of, compress_name}
use easylzma.Elzma.Files.{
  Posix, Tool, Arg, string, number, Whence, seek_set, seek_end, complain, say, delete_file,
  open_files, elzma_read_func, elzma_write_func,
}
use easylzma.Elzma.Progress.{print_progress_header, end_progress, elzma_progress_func}

abbrev pub elzma_lc_default : ℕ
elzma_lc_default = 3

abbrev pub elzma_lp_default : ℕ
elzma_lp_default = 0

abbrev pub elzma_pb_default : ℕ
elzma_pb_default = 2

abbrev pub elzma_dict_size_default_max : ℕ
elzma_dict_size_default_max = 2 ^ 24

-- ELZMA_COMPRESS_USAGE
abbrev pub elzma_compress_usage : Str
elzma_compress_usage =
    codes "Compress files using the LZMA algorithm (in place by default).\n"
    ++ (codes "\n"
        ++ (codes "Usage: elzma [options] [file]\n"
            ++ (codes "  -1 .. -9          compression level, -1 is fast, -9 is best (default 5)\n"
                ++ (codes "  -f, --force       overwrite output files if they exist\n"
                    ++ (codes "  -h, --help        output this message and exit\n"
                        ++ (codes "  -k, --keep        don't delete input files\n"
                            ++ (codes
                                  "  --lzip            compress to lzip disk format (.lz extension)\n"
                                ++ (codes
                                      "  --lzma            compress to LZMA-Alone disk format (.lzma extension)\n"
                                    ++ (codes
                                          "  -v, --verbose     output verbose status information while compressing\n"
                                        ++ (codes
                                              "  -z, --compress    compress files (default when invoking elzma program)\n"
                                            ++ (codes
                                                  "  -d, --decompress  decompress files (default when invoking unelzma program)\n"
                                                ++ (codes "\n"
                                                    ++ (codes "Advanced Options:\n"
                                                        ++ codes
                                                            "  -s --set-max-dict (advanced) specify maximum dictionary size in bytes\n")))))))))))))

-- The variables that the options override.
abbrev pub default_args : CompressArgs
default_args = record {
  level = 5;
  fname = none;
  max_dict_size = elzma_dict_size_default_max;
  verbose = 0;
  keep = 0;
  overwrite = 0;
  format = lzma;
}

module _ {S : Type 0} (px : Posix S) where
  -- The size of the input file as an unsigned int, or none for an error or the size 0.
  unfoldable pub input_size : ℕ → Tool S → Option ℕ × Tool S
  input_size in_file t =
      let (to_end, w1) = px.fseek in_file 0 seek_end t.world in
      let (told, w2) = px.ftell in_file w1 in
      let uncompressed_size = told % 2 ^ 32 in
      let (to_start, w3) = px.fseek in_file 0 seek_set w2 in
      if not (to_end == 0)
      then (none, record t { world = w1 })
      else if uncompressed_size == 0
      then (none, record t { world = w2 })
      else if not (to_start == 0)
      then (none, record t { world = w3 })
      else (some uncompressed_size, record t { world = w3 })

  -- Complain, and delete the output file: the result is 1.
  abbrev pub give_up : Str → List Arg → Str → Tool S → ℕ × Tool S
  give_up format args ofname t = (1, (delete_file px ofname (complain px format args t)).1)

  -- The lines of a verbose run.
  abbrev pub announce : CompressArgs → Str → Str → ℕ → ℕ → Tool S → Tool S
  announce a ifname ofname dict_size uncompressed_size t =
      if a.verbose == 0
      then t
      else say px (codes "input file is %u bytes\n") (number uncompressed_size ∷ []) (
          say px (codes "lc/lp/pb = %u/%u/%u | dictionary size = %u bytes\n")
            (number elzma_lc_default
              ∷ number elzma_lp_default
              ∷ number elzma_pb_default
              ∷ number dict_size
              ∷ [])
            (say px (codes "compressing '%s' to '%s'\n") (string ifname ∷ string ofname ∷ []) t))

  module _ (rt : Runtime (Tool S)) (crc : Crc) (E : Encoder (Tool S)) (h : FileHeader) where
    -- The call of `elzma_compress_run`, with the bar around it.
    unfoldable pub run_compression :
        CompressArgs
        → CompressHandle (Tool S) E.Enc
        → ℕ
        → ℕ
        → Tool S
        → Outcome (Returned E × Tool S)
    run_compression a hand in_file out_file t =
        let verbose = not (a.verbose == 0) in
        let t' : Tool S = record t { dots = 0 } in
        let t'' = if verbose then print_progress_header px t' else t' in
        let callback : Option (ProgressCallback (Tool S)) =
          if verbose then some (elzma_progress_func px) else none in
        elzma_compress_run crc rt E (elzma_write_func px out_file) callback h (some hand)
          (some (elzma_read_func px in_file)) t''
        >>= λ r. ok (r, if verbose then end_progress px r.2.world else r.2.world)

    -- The code behind a successful run. `name` is the address of `ofname`.
    unfoldable pub clean_up :
        CompressArgs
        → Str
        → ℕ
        → ℕ
        → ℕ
        → Option (CompressHandle (Tool S) E.Enc)
        → Tool S
        → Outcome (ℕ × Tool S)
    clean_up a ifname name in_file out_file hand t = do
      (gone, t1) ← elzma_compress_free E (some hand) t
      let t2 =
          rt.free (some name)
            (record t1 { world = px.fclose out_file (px.fclose in_file t1.world) })
      ok (0, if a.keep == 0 then (delete_file px ifname t2).1 else t2)

    -- The code behind the size of the input. The handle is never null here: `elzma_compress_alloc`
    -- fills it before it returns.
    unfoldable pub compress_sized :
        CompressArgs → Str → Str → ℕ → ℕ → ℕ → ℕ → Tool S → Outcome (ℕ × Tool S)
    compress_sized a ifname ofname name in_file out_file uncompressed_size t = do
      reasonable ← elzma_get_dict_size uncompressed_size
      let dict_size = if ltb a.max_dict_size reasonable then a.max_dict_size else reasonable
      let t1 = announce a ifname ofname dict_size uncompressed_size t
      let (configured, hand) =
          elzma_compress_config (elzma_compress_alloc {S = Tool S} {Enc = E.Enc}) elzma_lc_default
            elzma_lp_default elzma_pb_default a.level dict_size a.format uncompressed_size
      if not (configured == elzma_e_ok)
          then ok (
              give_up (codes "couldn't configure compression with provided parameters\n") [] ofname
                t1)
          else (run_compression a hand in_file out_file t1 >>= λ r.
              if not (r.0.0 == elzma_e_ok)
              then ok (give_up (codes "error compressing\n") [] ofname r.1)
              else clean_up a ifname name in_file out_file r.0.1 r.1)

    -- The code behind the output file's name.
    unfoldable pub compress_named : CompressArgs → Str → Str → ℕ → Tool S → Outcome (ℕ × Tool S)
    compress_named a ifname ofname name t =
        let (opened, t1) = open_files px ifname ofname a.overwrite t in
        elim opened [
          | none ↦ ok (1, t1)
          | some (in_file, out_file) ↦
              let (size, t2) = input_size in_file t1 in
              elim size [
                | none ↦ ok (
                    give_up (codes "error seeking input file (%s) - zero length?\n")
                      (string ifname ∷ []) ofname t2)
                | some uncompressed_size ↦
                    compress_sized a ifname ofname name in_file out_file uncompressed_size t2
              ]
        ]

    -- The code behind the options.
    unfoldable pub compress_file : CompressArgs → Str → Tool S → Outcome (ℕ × Tool S)
    compress_file a ifname t =
        let (name, t1) = rt.malloc (length ifname + length (ext_of a.format) + 1) t in
        elim name [
          | none ↦ fault null_pointer
          | some address ↦ compress_name px.usable ifname a.format >>= λ ofname.
              compress_named a ifname ofname address t1
        ]

    -- The exit status.
    unfoldable pub do_compress : List Str → Tool S → Outcome (ℕ × Tool S)
    do_compress argv t = do
      (status, a) ← parse_compress_args argv default_args
      if not (status == 0)
          then ok (1, complain px elzma_compress_usage [] t)
          else elim a.fname [ none ↦ fault null_pointer | some ifname ↦ compress_file a ifname t ]
