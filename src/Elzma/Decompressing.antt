-- ===== src/Elzma/Decompressing.antt =====
-- `doDecompress` of elzma/elzma.c.
pub mod Deletes
use easylzma.Common.{
  ℕ, ◌-◌, Bool, true, false, not, List, [], ◌∷◌, ◌++◌, Option, none, some, ◌==◌, if◌then◌else◌,
  Outcome, ok, fault, null_pointer, ◌>>=◌, length,
}
use easylzma.Common.Strings.{Str, codes}
use easylzma.Format.{FileHeader, FormatHandler}
use easylzma.Api.{FileFormat, elzma_e_ok}
use easylzma.Alloc.{Runtime}
use easylzma.Sdk.{Crc, Decoder}
use easylzma.Decompress.{elzma_decompress_alloc, elzma_decompress_free}
use easylzma.Decompress.Run.{elzma_decompress_run}
use easylzma.Elzma.Args.{DecompressArgs, parse_decompress_args}
use easylzma.Elzma.Names.{lzma_ext, lzip_ext, name_format, decompress_name}
use easylzma.Elzma.Files.{
  Posix, Tool, string, complain, delete_file, open_files, elzma_read_func, elzma_write_func,
}
use easylzma.Elzma.Compressing.{give_up}

-- ELZMA_DECOMPRESS_USAGE
abbrev pub elzma_decompress_usage : Str
elzma_decompress_usage =
    codes "Decompress files compressed using the LZMA algorithm (in place by default).\n"
    ++ (codes "\n"
        ++ (codes "Usage: unelzma [options] [file]\n"
            ++ (codes "  -f, --force      overwrite output files if they exist\n"
                ++ (codes "  -h, --help       output this message and exit\n"
                    ++ (codes "  -k, --keep       don't delete input files\n"
                        ++ (codes
                              "  -v, --verbose    output verbose status information while decompressing\n"
                            ++ (codes
                                  "  -z, --compress   compress files (default when invoking elzma program)\n"
                                ++ (codes
                                      "  -d, --decompress decompress files (default when invoking unelzma program)\n"
                                    ++ codes "\n"))))))))

abbrev pub no_args : DecompressArgs
no_args = record { fname = none; verbose = 0; keep = 0; overwrite = 0 }

module _ {S : Type 0} (px : Posix S) (rt : Runtime (Tool S)) (crc : Crc) (D : Decoder (Tool S))
    (rounds : ℕ) (junk : FormatHandler) (h : FileHeader) (address : ℕ) where
  -- The code behind the open files; `address` is where the handle stands. Neither file is closed.
  unfoldable pub decompress_opened :
      DecompressArgs → Str → Str → FileFormat → ℕ → ℕ → Tool S → Outcome (ℕ × Tool S)
  decompress_opened a ifname ofname format in_file out_file t = do
    r ←
        elzma_decompress_run rt crc D elzma_decompress_alloc (elzma_read_func px in_file)
          (elzma_write_func px out_file) rounds junk h format t
    if not (r.error == elzma_e_ok)
        then ok (give_up px (codes "error decompressing\n") [] ofname r.world)
        else (elzma_decompress_free rt (some (some address)) r.world >>= λ freed.
            ok (0, if a.keep == 0 then (delete_file px ifname freed.1).1 else freed.1))

  -- The code behind the format.
  unfoldable pub decompress_file :
      DecompressArgs → Str → FileFormat → Str → Tool S → Outcome (ℕ × Tool S)
  decompress_file a ifname format ext t =
      let (name, t1) = rt.malloc (length ifname - length ext) t in
      elim name [
        | none ↦ fault null_pointer
        | some block ↦ decompress_name px.usable ifname ext >>= λ ofname.
            let (opened, t2) = open_files px ifname ofname a.overwrite t1 in
            elim opened [
              | none ↦ ok (1, t2)
              | some (in_file, out_file) ↦
                  decompress_opened a ifname ofname format in_file out_file t2
            ]
      ]

  -- The exit status.
  unfoldable pub do_decompress : List Str → Tool S → Outcome (ℕ × Tool S)
  do_decompress argv t =
      let (status, a) = parse_decompress_args argv no_args in
      if not (status == 0) then ok (1, complain px elzma_decompress_usage [] t) else elim a.fname [
        | none ↦ fault null_pointer
        | some ifname ↦ elim (name_format ifname) [
          | none ↦ ok (
            1,
            complain px (codes "input file extension not recognized (expected either %s or %s)")
                (string lzma_ext ∷ string lzip_ext ∷ []) t,
          )
          | some (format, ext) ↦ decompress_file a ifname format ext t
        ]
      ]
