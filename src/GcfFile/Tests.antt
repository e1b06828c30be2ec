-- ===== src/GcfFile/Tests.antt =====
-- Runs of GCF_ParseFile (gcf.c), and the theorems about it at concrete inputs.
use gcfflashero.Base.{ℕ, ◌≡◌, refl, List, [], ◌∷◌, arith}
use gcfflashero.Base.Text.{codes}
use gcfflashero.GcfFile.{GcfFile, ok, parse_file, parse_version, parse_digits, hex_digit}
use gcfflashero.GcfFile.Header.{parse_file_header}
use gcfflashero.GcfFile.Version.{Spells, IsEnd, parse_version_lem}

-- A firmware of three bytes, of type 1 at the address 0x5000.
abbrev content : List ℕ
content =
    0xED ∷ 0xFE ∷ 0xFE ∷ 0xCA ∷ 1 ∷ 0 ∷ 0x50 ∷ 0 ∷ 0 ∷ 3 ∷ 0 ∷ 0 ∷ 0 ∷ 0x77 ∷ 10 ∷ 20 ∷ 30 ∷ []

abbrev named : GcfFile
named = record {
  fname = codes "fw_0x26390500.GCF";
  fsize = 17;
  fw_version = 0;
  file_type = 0;
  target_address = 0;
  file_size = 0;
  crc = 0;
  crc32 = 0;
  fcontent = content;
}

version-named : parse_version named.fname ≡ 0x26390500
unfolding parse_version parse_digits hex_digit
version-named = refl

parse_file_header_example : parse_file named ≡ (
  ok,
  record named {
    fw_version = parse_version named.fname;
    file_type = 1;
    target_address = 0x5000;
    file_size = 3;
    crc = 0x77;
    crc32 = 0;
  },
)
parse_file_header_example = parse_file_header named (omega arith) (omega arith) (omega arith)

version_spelled : Spells (codes "26aF0500") (2 ∷ 6 ∷ 10 ∷ 15 ∷ 0 ∷ 5 ∷ 0 ∷ 0 ∷ [])
version_spelled = ground arith

dot-IsEnd : IsEnd (codes ".GCF")
dot-IsEnd d = ground arith

parse_version_lem_example : parse_version (codes "fw_0x26aF0500.GCF") ≡ 0x26AF0500
parse_version_lem_example =
    parse_version_lem (codes "fw_") (codes "26aF0500") (2 ∷ 6 ∷ 10 ∷ 15 ∷ 0 ∷ 5 ∷ 0 ∷ 0 ∷ [])
      (codes ".GCF") (refl, (refl, tt)) version_spelled dot-IsEnd
