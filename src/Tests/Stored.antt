-- ===== src/Tests/Stored.antt =====
-- A program, a dictionary and symbols to be stored by src/vm/program.c.
use tinyaml.Prelude.{ℕ, ◌≡◌, refl, arith, some, List, [], ◌∷◌, inl, inr}
use tinyaml.Prelude.{ok}
use tinyaml.Hashtab.Keys.{CString, str_differs}
use tinyaml.TextSeg
use tinyaml.TextSeg.{TextSeg}
use tinyaml.TextSeg.Holds
use tinyaml.TextSeg.Find.{last_index, interned, find_by_text-Holds}
use tinyaml.TextSeg.Intern
use tinyaml.OpcodeDict
use tinyaml.OpcodeDict.{add, optimize}
use tinyaml.OpcodeDict.Holds.{Opcode, Holds, IsFreshStub, init-Holds, named, added, added-cases}
use tinyaml.OpcodeDict.Lookup.{add-Holds}
use tinyaml.Program.{Program, CodeWord, number, text, write_code}
use tinyaml.Program.Code.{HasCode, fetch-write_code}
use tinyaml.Program.Labels.{new-HasLabels}
use tinyaml.ProgramFile.Operand.{Tables, Codable, Uses}
use tinyaml.ProgramFile.Section.{flat, AllCodable, and_next, none_left}

-- "x"
abbrev pub name : CString
name = 120 ∷ []

abbrev no_opcodes : ℕ → List Opcode
no_opcodes a = []

abbrev one_opcode : ℕ → List Opcode
one_opcode = added no_opcodes 6 name 4096

abbrev pub two_opcodes : ℕ → List Opcode
two_opcodes = added one_opcode 7 name 8192

-- A dictionary with an opcode on strings and one on symbols.
pub first_added :
    (od : OpcodeDict.OpcodeDict) × (add OpcodeDict.init 6 (some name) 4096 ≡ ok od)
    × Holds od one_opcode
unfolding named
first_added =
    add-Holds init-Holds 6 name 4096 (omega arith) (omega arith) (λ a i s lt e. cc) refl
      (omega arith)

fresh : IsFreshStub 8192 one_opcode
fresh a i s lt e = elim (added-cases no_opcodes 6 name 4096 a i s 8192 e) [
  | inl (_, _, _, q) ↦ absurd (omega arith)
  | inr (e', h) ↦ absurd (omega (arith, h))
]

pub both_added :
    (od : OpcodeDict.OpcodeDict) × (add first_added.0 7 (some name) 8192 ≡ ok od)
    × Holds od two_opcodes
unfolding named
both_added =
    add-Holds (first_added.2) 7 name 8192 (omega arith) (omega arith) fresh refl (omega arith)

abbrev pub strings : List CString
strings = [] ∷ name ∷ []

-- A table with that string.
pub string_table :
    (ts : TextSeg) × (TextSeg.find_by_text Intern.init-Holds.0 name ≡ ok (some name, ts))
    × Holds.Holds ts strings
unfolding interned last_index str_differs
string_table = find_by_text-Holds (Intern.init-Holds.2) name (omega arith)

abbrev pub tables : Tables
tables = record {
  opcodes = two_opcodes;
  strings = strings;
  written = strings;
  filed = strings;
  loaded = strings;
}

abbrev pub instructions : List (ℕ × CodeWord)
instructions = (4096, text name) ∷ (8192, number 1) ∷ []

-- A program with the string and an instruction, and then with both.
pub one_written :
    (p : Program) × (write_code (new-HasLabels.0) (number 4096) (text name) ≡ ok p)
    × HasCode p (number 4096 ∷ text name ∷ [])
one_written =
    let (p, wrote, held, _, _, _) =
      fetch-write_code (new-HasLabels.0) (number 4096) (text name) (new-HasLabels.3)
        (omega arith) in
    (p, wrote, held)

pub both_written :
    (p : Program) × (write_code one_written.0 (number 8192) (number 1) ≡ ok p)
    × HasCode p (flat instructions)
both_written =
    let (p, wrote, held, _, _, _) =
      fetch-write_code one_written.0 (number 8192) (number 1) (one_written.2) (omega arith) in
    (p, wrote, held)

abbrev pub linked : Program → Program
linked p = record p { env = some string_table.0; strings = string_table.0 }

pub uses : (p : Program) → Uses tables strings both_added.0 string_table.0 string_table.0 (linked p)
uses p = record {
  dict = both_added.2;
  environment = refl;
  symbols = string_table.2;
  kept = string_table.2;
  kept_small = omega arith;
  strings = string_table.2;
  strings_small = omega arith;
}

pub codable : AllCodable tables instructions instructions
unfolding last_index str_differs
codable = and_next 4096 (text name) (text name) (Codable.string 4096 0 1 name name refl refl) (
    and_next 8192 (number 1) (number 1)
      (Codable.symbol 8192 0 1 1 1 name name refl (omega arith) refl refl (omega arith) refl
        (omega arith))
      none_left)
