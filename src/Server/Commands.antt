-- ===== src/Server/Commands.antt =====
-- `execute_command` of src/bin/server.rs. Texts are UTF-8 bytes.
use swift_ssh.Prelude.{
  ℕ, zero, suc, ◌+◌, ◌&&◌, ◌||◌, List, [], ◌∷◌, ◌++◌, ascii, leb, ◌==◌, if◌then◌else◌,
}
use swift_ssh.Packet.Utf8.{to_string_lossy}

-- What `Command::new(..).args(..).output()` gives: the two streams, or the text of the error.
pub data Output : Type 0 where
  streams : List ℕ → List ℕ → Output
  failed : List ℕ → Output

-- `char::is_whitespace`: the bytes of the white space that the text starts with, 0 if there is none.
space_two : ℕ → ℕ → ℕ
space_two a b = if a == 0xc2 && (b == 0x85 || b == 0xa0) then 2 else 0

space_three : ℕ → ℕ → ℕ → ℕ
space_three a b c =
    if (a == 0xe1 && (b == 0x9a && c == 0x80))
      || ((a == 0xe2
            && (b == 0x80
                && ((leb 0x80 c && leb c 0x8a) || (c == 0xa8 || (c == 0xa9 || c == 0xaf)))))
          || ((a == 0xe2 && (b == 0x81 && c == 0x9f)) || (a == 0xe3 && (b == 0x80 && c == 0x80))))
    then 3
    else 0

space_length : List ℕ → ℕ
unfolding space_two space_three
space_length [] = 0
space_length (a ∷ []) = if (leb 9 a && leb a 13) || a == 32 then 1 else 0
space_length (a ∷ b ∷ []) = if (leb 9 a && leb a 13) || a == 32 then 1 else space_two a b
space_length (a ∷ b ∷ c ∷ _) =
    if (leb 9 a && leb a 13) || a == 32 then 1 else space_two a b + space_three a b c

-- A part that is not empty, in front of the others.
flush : List ℕ → List (List ℕ) → List (List ℕ)
flush [] parts = parts
flush (b ∷ bs) parts = (b ∷ bs) ∷ parts

-- The parts behind `skip` bytes, the first of which goes on from `part`.
parts_from : ℕ → List ℕ → List ℕ → List (List ℕ)
unfolding space_length flush
parts_from skip part [] = flush part []
parts_from (suc skip) part (b ∷ bs) = parts_from skip part bs
parts_from zero part (b ∷ bs) = elim (space_length (b ∷ bs)) [
  | zero ↦ parts_from zero (part ++ b ∷ []) bs
  | suc n ↦ flush part (parts_from n [] bs)
]

-- `split_whitespace().collect()`
unfoldable pub split_whitespace : List ℕ → List (List ℕ)
unfolding parts_from space_length flush space_two space_three
split_whitespace s = parts_from zero [] s

-- the text of the result
unfoldable pub output_text : Output → List ℕ
output_text (streams stdout stderr) = to_string_lossy stdout ++ to_string_lossy stderr
output_text (failed e) = ascii "Command failed: " ++ (e ++ 10 ∷ [])

module _ {Disk : Type 0} (spawn : Disk → List ℕ → List (List ℕ) → Output × Disk) where
  unfoldable pub run_parts : Disk → List (List ℕ) → List ℕ × Disk
  run_parts disk [] = ([], disk)
  run_parts disk (program ∷ args) =
      let (output, after) = spawn disk program args in (output_text output, after)

  unfoldable pub execute_command : Disk → List ℕ → List ℕ × Disk
  execute_command disk command = run_parts disk (split_whitespace command)
