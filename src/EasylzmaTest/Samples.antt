-- ===== src/EasylzmaTest/Samples.antt =====
-- The data of test/easylzma_test.c: its sample text, and files that it decompresses.
use easylzma.Common.{ℕ, List, [], ◌∷◌, ◌++◌}
use easylzma.Common.Strings.{Str, codes}

abbrev pub sample_data : Str
sample_data =
    codes "Overview\n"
    ++ (codes "\n"
        ++ (codes "Easylzma is a C library and command line tools for LZMA compression and \n"
            ++ (codes "decompression.  It uses a Igor Pavlov's reference implementation and SDK\n"
                ++ (codes "written in C.\n"
                    ++ (codes "\n"
                        ++ (codes "License\n"
                            ++ (codes "\n"
                                ++ (codes
                                      "All the cruft you find here is public domain.  You don't have to credit\n"
                                    ++ (codes
                                          "anyone to use this code, but my personal request is that you mention\n"
                                        ++ (codes "Igor Pavlov for his hard, high quality work.\n"
                                            ++ (codes "\n"
                                                ++ (codes "Project Goals\n"
                                                    ++ (codes "\n"
                                                        ++ (codes
                                                            "1. A tiny C wrapper and portable build system around a subset of\n"
                                                            ++ (codes
                                                            "   Igor Pavlov's public domain LZMA compression and decompression\n"
                                                            ++ (codes "   implementation.\n"
                                                            ++ (codes
                                                            "2. A tiny and straighforward API\n"
                                                            ++ (codes
                                                            "3. Support for multiple different prominent LZMA file formats (see section on\n"
                                                            ++ (codes "   file formats below)\n"
                                                            ++ (codes
                                                            "4. easy to build and use everywhere (doze and nix alike)\n"
                                                            ++ (codes
                                                            "5. public domain licensing through and through.  (hats off to Igor)\n"
                                                            ++ (codes "\n"
                                                            ++ (codes "Current State:\n"
                                                            ++ (codes "\n"
                                                            ++ (codes
                                                            "THIS IS A WORK IN PROGRESS.  The code here should be considered pre-alpha,\n"
                                                            ++ (codes
                                                            "and this should only be used by tinkerers or hackers at this point.  Once\n"
                                                            ++ (codes
                                                            "feature completion is attained this message will be updated.  See the\n"
                                                            ++ (codes
                                                            "TODO file distributed with the source for remaining work to be done.\n"
                                                            ++ (codes "\n"
                                                            ++ (codes "Platforms Supported\n"
                                                            ++ (codes "\n"
                                                            ++ (codes
                                                            "0.0.2 has been successfully compiled and run basic round trip testing\n"
                                                            ++ (codes
                                                            "on the following platforms & compilers:\n"
                                                            ++ (codes "\n"
                                                            ++ (codes
                                                            "  * win32 - visual studio 2005\n"
                                                            ++ (codes
                                                            "  * osx - 10.4 & 10.5 (intel)\n"
                                                            ++ (codes
                                                            "  * netbsd ppc - 4.0.1 with gcc 4.1.2\n"
                                                            ++ (codes
                                                            "    (NOTE: memory allocation errors when dict size is default)\n"
                                                            ++ (codes
                                                            "  * freebsd 6.1 - amd64 gcc 3.4.4\n"
                                                            ++ (codes "\n"
                                                            ++ (codes "Features\n"
                                                            ++ (codes "\n"
                                                            ++ (codes
                                                            "XXX: write me (and the code)\n"
                                                            ++ (codes "\n"
                                                            ++ (codes "Usage\n"
                                                            ++ (codes "\n"
                                                            ++ (codes
                                                            "XXX: write me (and the code)\n"
                                                            ++ (codes "\n"
                                                            ++ (codes
                                                            "The Saga of LZMA File Formats, and a couple cents.\n"
                                                            ++ (codes "\n"
                                                            ++ (codes
                                                            "As far as I can tell, there are at least four different ways to put LZMA\n"
                                                            ++ (codes
                                                            "compressed data in a stream:\n"
                                                            ++ (codes "\n"
                                                            ++ (codes
                                                            "1. The LZMA-Alone format, which consists of a 13 byte header including\n"
                                                            ++ (codes
                                                            "   compression properties, dictionary size, and the uncompressed size of\n"
                                                            ++ (codes
                                                            "   the file, followed by compressed data.  This format has some support\n"
                                                            ++ (codes
                                                            "   in Igor Pavlov's reference implementation and is in widespread use, as\n"
                                                            ++ (codes
                                                            "   it's supported by lzmautils: http://tukaani.org/lzma/\n"
                                                            ++ (codes "\n"
                                                            ++ (codes
                                                            "   The canonical (afaict) implementation of this format (lzmautis) is\n"
                                                            ++ (codes "   BSD licensed.\n"
                                                            ++ (codes "\n"
                                                            ++ (codes
                                                            "2. The lzip format (http://www.nongnu.org/lzip/lzip.html) - which\n"
                                                            ++ (codes
                                                            "   includes a CRC footer and leading \"magic number\".  The former\n"
                                                            ++ (codes
                                                            "   affords data integrity gaurantees, while the latter simplifies\n"
                                                            ++ (codes
                                                            "   heuristic determination of file format.  This format looks to have\n"
                                                            ++ (codes
                                                            "   reasonably widespread usage, though not quite as significant as\n"
                                                            ++ (codes "   LZMA-Alone.\n"
                                                            ++ (codes "\n"
                                                            ++ (codes
                                                            "   The only implementation of this format I can find (lzip) is GPL licensed.\n"
                                                            ++ (codes "\n"
                                                            ++ (codes
                                                            "3. the xz format ( http://tukaani.org/xz/xz-file-format.txt ) which is\n"
                                                            ++ (codes
                                                            "   a more complex representation that includes CRC support and a magic\n"
                                                            ++ (codes
                                                            "   number.  This format is to be supported by the next iteration of\n"
                                                            ++ (codes
                                                            "   XZ Utils which is currently in beta.  The source may be obtained\n"
                                                            ++ (codes
                                                            "   here: git://ctrl.tukaani.org/xz.git\n"
                                                            ++ (codes "\n"
                                                            ++ (codes
                                                            "   This format will address some criticisms to the LZMA-Alone format and\n"
                                                            ++ (codes
                                                            "   was developed collaboratively by Lasse Collin (the current maintainer\n"
                                                            ++ (codes
                                                            "   of XZ utils) and Igor Pavlov (the author of 7zip and the refrence\n"
                                                            ++ (codes
                                                            "   implementation of LZMA).\n"
                                                            ++ (codes "\n"
                                                            ++ (codes
                                                            "   The xz format will employ LZMA2 which consists of extensions on top\n"
                                                            ++ (codes
                                                            "   of LZMA, in the xz utils maintainer's words:\n"
                                                            ++ (codes "\n"
                                                            ++ (codes
                                                            "   \"The primary compression algorithm in .xz is currently LZMA2, which\n"
                                                            ++ (codes
                                                            "    is an extension on top of the orignal LZMA to fix a few practical\n"
                                                            ++ (codes
                                                            "    issues, like adding support for flushing the encoder (equivalent\n"
                                                            ++ (codes
                                                            "    to zlib's Z_SYNC_FLUSH), which isn't possible with the original\n"
                                                            ++ (codes "    LZMA.\"\n"
                                                            ++ (codes "\n"
                                                            ++ (codes
                                                            "   Again, maintainers words, regarding licensing:\n"
                                                            ++ (codes "\n"
                                                            ++ (codes
                                                            "   \"XZ Utils currently contains a zlib-like compression library and a \n"
                                                            ++ (codes
                                                            "    gzip-like command line tool. It's currently under LGPLv2.1+ but I will \n"
                                                            ++ (codes
                                                            "    put it into the public domain before the first stable release.\"\n"
                                                            ++ (codes "\n"
                                                            ++ (codes
                                                            "4. The 7zip disk format which can contain multiple files possibly stored in\n"
                                                            ++ (codes "   LZMA compressed format.\n"
                                                            ++ (codes "\n"
                                                            ++ (codes
                                                            "Given the state of things, the goal of this project is to develop something\n"
                                                            ++ (codes
                                                            "based on the existing formats, and quickly leverage code generated by the XZ\n"
                                                            ++ (codes
                                                            "Utils project, or simply kill this thing if that project produces something\n"
                                                            ++ (codes
                                                            "that's easy to embed and has a clean API at a similar level of abstraction\n"
                                                            ++ (codes "as easylzma.\n"
                                                            ++ (codes "\n"
                                                            ++ codes
                                                            "lloyd - sometime in oh nine.\n"))))))))
                                                            ))))))))))))))))))))))))))))))))))))))))
                                                            ))))))))))))))))))))))))))))))))))))))))
                                                            ))))))))))))))))))

-- "correct" lzip generated from the lzip program
abbrev pub correct_lzip : List ℕ
correct_lzip =
    0x4C ∷ 0x5A ∷ 0x49 ∷ 0x50 ∷ 0x01 ∷ 0x0C ∷ 0x00 ∷ 0x33 ∷ 0x1B ∷ 0xEC ∷ 0x15 ∷ 0x07 ∷ 0xFF ∷ 0xFF
    ∷ 0xFF ∷ 0xFF ∷ 0x80 ∷ 0x00 ∷ 0x00 ∷ 0x00 ∷ 0xA8 ∷ 0x65 ∷ 0x32 ∷ 0x7E ∷ 0x04 ∷ 0x00 ∷ 0x00
    ∷ 0x00 ∷ 0x00 ∷ 0x00 ∷ 0x00 ∷ 0x00 ∷ 0x28 ∷ 0x00 ∷ 0x00 ∷ 0x00 ∷ 0x00 ∷ 0x00 ∷ 0x00 ∷ 0x00 ∷ []

-- "correct" LZMA-Alone generated from lzma utils
abbrev pub correct_lzma : List ℕ
correct_lzma =
    0x5D ∷ 0x00 ∷ 0x00 ∷ 0x80 ∷ 0x00 ∷ 0x04 ∷ 0x00 ∷ 0x00 ∷ 0x00 ∷ 0x00 ∷ 0x00 ∷ 0x00 ∷ 0x00 ∷ 0x00
    ∷ 0x33 ∷ 0x1B ∷ 0xEC ∷ 0x14 ∷ 0x00 ∷ 0x00 ∷ 0x00 ∷ []

-- lzip with a bad CRC
abbrev pub corrupt_crc : List ℕ
corrupt_crc =
    0x4C ∷ 0x5A ∷ 0x49 ∷ 0x50 ∷ 0x01 ∷ 0x0C ∷ 0x00 ∷ 0x33 ∷ 0x1B ∷ 0xEC ∷ 0x15 ∷ 0x07 ∷ 0xFF ∷ 0xFF
    ∷ 0xFF ∷ 0xFF ∷ 0x80 ∷ 0x00 ∷ 0x00 ∷ 0x00 ∷ 0xA8 ∷ 0x65 ∷ 0x31 ∷ 0x7E ∷ 0x04 ∷ 0x00 ∷ 0x00
    ∷ 0x00 ∷ 0x00 ∷ 0x00 ∷ 0x00 ∷ 0x00 ∷ 0x28 ∷ 0x00 ∷ 0x00 ∷ 0x00 ∷ 0x00 ∷ 0x00 ∷ 0x00 ∷ 0x00 ∷ []

-- lzip with a bad uncompressed size
abbrev pub corrupt_size : List ℕ
corrupt_size =
    0x4C ∷ 0x5A ∷ 0x49 ∷ 0x50 ∷ 0x01 ∷ 0x0C ∷ 0x00 ∷ 0x33 ∷ 0x1B ∷ 0xEC ∷ 0x15 ∷ 0x07 ∷ 0xFF ∷ 0xFF
    ∷ 0xFF ∷ 0xFF ∷ 0x80 ∷ 0x00 ∷ 0x00 ∷ 0x00 ∷ 0xA8 ∷ 0x65 ∷ 0x32 ∷ 0x7E ∷ 0x04 ∷ 0x01 ∷ 0x00
    ∷ 0x00 ∷ 0x00 ∷ 0x00 ∷ 0x00 ∷ 0x00 ∷ 0x28 ∷ 0x00 ∷ 0x00 ∷ 0x00 ∷ 0x00 ∷ 0x00 ∷ 0x00 ∷ 0x00 ∷ []

-- lzma with a bad uncompressed size
abbrev pub corrupt_size_lzma : List ℕ
corrupt_size_lzma =
    0x5D ∷ 0x00 ∷ 0x00 ∷ 0x80 ∷ 0x00 ∷ 0x04 ∷ 0x01 ∷ 0x00 ∷ 0x00 ∷ 0x00 ∷ 0x00 ∷ 0x00 ∷ 0x00 ∷ 0x00
    ∷ 0x33 ∷ 0x1B ∷ 0xEC ∷ 0x14 ∷ 0x00 ∷ 0x00 ∷ 0x00 ∷ []

-- lzma with a bad uncompressed size
abbrev pub corrupt_size_lzma2 : List ℕ
corrupt_size_lzma2 =
    0x5D ∷ 0x00 ∷ 0x00 ∷ 0x80 ∷ 0x00 ∷ 0x03 ∷ 0x00 ∷ 0x00 ∷ 0x00 ∷ 0x00 ∷ 0x00 ∷ 0x00 ∷ 0x00 ∷ 0x00
    ∷ 0x33 ∷ 0x1B ∷ 0xEC ∷ 0x14 ∷ 0x00 ∷ 0x00 ∷ 0x00 ∷ []
