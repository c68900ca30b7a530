-- ===== src/ProgramFile/Usable.antt =====
-- Instructions that a machine can store in a file of src/vm/program.c.
use tinyaml.Prelude.{
  ℕ, ◌^◌, ◌<◌, ◌≡◌, ◌≢◌, refl, arith, true, false, some, List, [], ◌∷◌, ◌==◌, length, get_elem?,
}
use tinyaml.Hashtab.Keys.{CString}
use tinyaml.TextSeg.Find.{last_index}
use tinyaml.OpcodeDict.Holds.{Opcode}
use tinyaml.OpcodeDict.Optimize.{AllKnown}
use tinyaml.Program.{CodeWord, number, text}
use tinyaml.ProgramFile.Operand.{Tables}
use tinyaml.ProgramFile.Indexed.{stubs_of, AllNamed}

-- The opcodes, the strings of the program, and the symbols of the machines that write and read.
pub record World : Type 0 where
  pub opcodes : ℕ → List Opcode
  pub strings : List CString
  pub written : List CString
  pub loaded : List CString

-- Instructions that the writing machine has: an opcode of a type, and an operand of that type. A string
-- is one of the program; a symbol is one of both machines, with an index other than 0 where it is loaded.
pub data Usable (e : World) : ℕ → CodeWord → Type 0 where
  plain :
      (stub a i n : ℕ) (s : CString)
      → a < 8
      → get_elem? (e.opcodes a) i ≡ some (s, stub)
      → (a == 6) ≡ false
      → (a == 7) ≡ false
      → n < 2 ^ 64
      → Usable e stub (number n)
  string :
      (stub i k : ℕ) (s str : CString)
      → get_elem? (e.opcodes 6) i ≡ some (s, stub)
      → last_index 0 str e.strings ≡ some k
      → Usable e stub (text str)
  symbol :
      (stub i n m : ℕ) (s name : CString)
      → get_elem? (e.opcodes 7) i ≡ some (s, stub)
      → n < length e.written
      → get_elem? e.written n ≡ some name
      → last_index 0 name e.loaded ≡ some m
      → m ≢ 0
      → Usable e stub (number n)

abbrev pub AllUsable : World → List (ℕ × CodeWord) → Type 0
AllUsable e [] = Unit {0}
AllUsable e ((stub, arg) ∷ xs) = Usable e stub arg × AllUsable e xs

-- The tables of a file with the opcodes `l` and the symbols `filed`.
abbrev pub file_tables : World → (ℕ → List Opcode) → List CString → Tables
file_tables e l filed = record {
  opcodes = l;
  strings = e.strings;
  written = e.written;
  filed = filed;
  loaded = e.loaded;
}

Usable-named :
    (e : World) {stub : ℕ} {arg : CodeWord}
    → Usable e stub arg
    → (a : ℕ) × (i : ℕ) × (s : CString) × (a < 8)
      × (get_elem? (e.opcodes a) i ≡ some (s, stub))
      × ((a == 7) ≡ true
          → (k : ℕ) × (name : CString) × (arg ≡ number k)
            × (k < length e.written)
            × (get_elem? e.written k ≡ some name))
Usable-named e (plain stub a i n s lt there not6 not7 small) =
    (a, i, s, lt, there, (λ h. absurd (cc)))
Usable-named e (string stub i k s str there known) =
    (6, i, s, omega arith, there, (λ h. absurd (cc)))
Usable-named e (symbol stub i n m s name there small at known ne) =
    (7, i, s, omega arith, there, (λ h. (n, name, refl, small, at)))

pub AllUsable-AllNamed :
    (e : World) (xs : List (ℕ × CodeWord)) → AllUsable e xs → AllNamed e.opcodes e.written xs
AllUsable-AllNamed e [] h = tt
AllUsable-AllNamed e ((stub, arg) ∷ xs) (one, others) =
    (Usable-named e one, AllUsable-AllNamed e xs others)

pub AllUsable-AllKnown :
    (e : World) (xs : List (ℕ × CodeWord)) → AllUsable e xs → AllKnown e.opcodes (stubs_of xs)
AllUsable-AllKnown e [] h = tt
AllUsable-AllKnown e ((stub, arg) ∷ xs) (one, others) =
    let (a, i, s, lt, there, _) = Usable-named e one in
    ((a, i, s, lt, there), AllUsable-AllKnown e xs others)
