-- ===== src/Agent/HexDump/Tests.antt =====
-- Concrete dumps.
use Prim.Native.String.{String}
use Prim.Native.Char.{code}
use sat_os_payload_sdk.Prelude.{◌≡◌, refl, List, ℕ, [], ◌∷◌, ◌++◌, replicate, some, false, arith}
use sat_os_payload_sdk.Agent.HexDump.{Text, dump_text, hexdump, row, hex}
use sat_os_payload_sdk.Agent.HexDump.Reader.{undump}
use sat_os_payload_sdk.Agent.HexDump.Whole.{split_lines, undump-dump_text}

abbrev codes : String → Text
codes String.[] = []
codes (String.◌∷◌ c s) = code c ∷ codes s

row_text :
    row 16 (0 ∷ 255 ∷ b'A' ∷ [])
    ≡ codes "00000010  00 ff 41                                          |..A             |"
unfolding row hex
row_text = refl

repeated_rows :
    hexdump (replicate 50 7) 0
    ≡ codes "00000000  07 07 07 07 07 07 07 07  07 07 07 07 07 07 07 07  |................|"
      ∷ codes "*"
      ∷ codes "00000030  07 07                                             |..              |"
      ∷ codes "00000032"
      ∷ []
unfolding hexdump row hex
repeated_rows = refl

abbrev three_rows_and_a_rest : List ℕ
three_rows_and_a_rest = replicate 48 7 ++ 1 ∷ 255 ∷ []

undump-dump_text_example :
    undump 256 (split_lines (dump_text three_rows_and_a_rest 256)) [] [] false
    ≡ some three_rows_and_a_rest
undump-dump_text_example = undump-dump_text three_rows_and_a_rest 256 (omega arith)
