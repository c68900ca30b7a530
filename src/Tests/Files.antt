-- ===== src/Tests/Files.antt =====
-- The theorems on the files of src/vm/program.c at a concrete program.
use tinyaml.Prelude.{ℕ, ◌+◌, ◌-◌, ◌/◌, ◌≡◌, refl, arith, List, [], ◌∷◌, ◌++◌, ◌≤◌, length}
use tinyaml.Prelude.{ok, ◌>>=◌}
use tinyaml.Dynarray
use tinyaml.Dynarray.{alert_size}
use tinyaml.Hashtab.Keys.{CString, str_differs}
use tinyaml.AbstractIo.Laws.{file_to, file_from}
use tinyaml.TextSeg.{TextSeg}
use tinyaml.TextSeg.Holds
use tinyaml.TextSeg.Find.{last_index}
use tinyaml.OpcodeDict
use tinyaml.OpcodeDict.{add, optimize}
use tinyaml.OpcodeDict.Holds.{Opcode, Holds}
use tinyaml.Program.{Program, CodeWord, add_label, label_to_ofs}
use tinyaml.Program.Code.{HasCode}
use tinyaml.OpcodeDict.Optimize.{IsWithin, AllKnown, optimize-Holds}
use tinyaml.Program.Labels.{new-HasLabels, add_label_new}
use tinyaml.ProgramFile.LabelSection.{HasPairs, AllStorable, read_labels-write_labels}
use tinyaml.ProgramFile.{write_codes, write_labels, stubs_from, env_optimize}
use tinyaml.ProgramFile.Reading.{read_codes, read_labels}
use tinyaml.ProgramFile.Section.{flat, AllCodable, read_codes-write_codes}
use tinyaml.ProgramFile.Indexed.{AllNamed, AllFiled}
use tinyaml.ProgramFile.Symbols.{env_optimize-AllFiled}
use tinyaml.ProgramFile.Usable.{World, Usable, AllUsable, file_tables}
use tinyaml.ProgramFile.Round.{write_codes-optimize}
use tinyaml.Tests.Stored.{
  name, two_opcodes, strings, tables, instructions, linked, uses, codable, string_table, both_added,
  both_written,
}

read_codes-write_codes_example :
    (out : List ℕ) × (q' : Program) × (write_codes
        ((Dynarray.dynarray_size both_written.0.code + 1) / 2)
        0
        both_added.0
        (linked both_written.0)
        string_table.0
        (file_to [])
      ≡ ok (file_to out))
    × (read_codes
          ((Dynarray.dynarray_size both_written.0.code + 1) / 2)
          both_added.0
          string_table.0
          (linked (new-HasLabels.0))
          (file_from (out ++ (9 ∷ [])))
        ≡ ok (q', file_from (9 ∷ [])))
    × HasCode q' (flat instructions)
unfolding Dynarray.dynarray_size
read_codes-write_codes_example =
    read_codes-write_codes tables (linked both_written.0) (linked (new-HasLabels.0))
      (uses both_written.0) (uses (new-HasLabels.0)) (9 ∷ []) codable (both_written.2)
      (new-HasLabels.3) (omega (arith, (both_written.2).count))

optimize-Holds_example :
    (od : OpcodeDict.OpcodeDict) × (l : ℕ → List Opcode) × (optimize both_added.0
        (8192 ∷ 4096 ∷ 8192 ∷ [])
      ≡ ok od)
    × Holds od l
    × IsWithin l two_opcodes
    × AllKnown l (8192 ∷ 4096 ∷ 8192 ∷ [])
optimize-Holds_example =
    optimize-Holds (8192 ∷ 4096 ∷ 8192 ∷ []) (both_added.2)
      (
        (7, 0, name, omega arith, refl),
        ((6, 0, name, omega arith, refl), ((7, 0, name, omega arith, refl), tt)),
      )
      (omega arith)

-- A program with one label.
labelled :
    (p : Program) × (add_label (new-HasLabels.0) 12 name ≡ ok p)
    × HasPairs p.labels ((name, 12) ∷ [])
unfolding last_index str_differs
labelled = add_label_new (new-HasLabels.0) 12 name (new-HasLabels.2) (omega arith) refl

storable : AllStorable [] ((name, 12) ∷ [])
unfolding last_index str_differs
storable = ((((λ e. omega arith), tt), omega arith, omega arith, refl), tt)

read_labels-write_labels_example :
    (out : List ℕ) × (q' : Program) × (write_labels
        (Dynarray.dynarray_size labelled.0.labels.offsets - 1)
        1
        labelled.0.labels
        (file_to [])
      ≡ ok (file_to out))
    × (read_labels
          (Dynarray.dynarray_size labelled.0.labels.offsets - 1)
          (new-HasLabels.0)
          (file_from (out ++ []))
        ≡ ok (q', file_from []))
    × HasPairs q'.labels ((name, 12) ∷ [])
    × ((s : CString) → label_to_ofs q' s ≡ label_to_ofs labelled.0 s)
read_labels-write_labels_example =
    read_labels-write_labels labelled.0 (new-HasLabels.0) ((name, 12) ∷ []) [] (labelled.2)
      (new-HasLabels.2) storable (omega arith)

all_named : AllNamed two_opcodes strings instructions
all_named = (
  (6, 0, name, omega arith, refl, (λ h. absurd (cc))),
  ((7, 0, name, omega arith, refl, (λ h. (1, name, refl, omega arith, refl))), tt),
)

env_optimize-AllFiled_example :
    (ts : TextSeg) × (filed : List CString) × (env_optimize both_added.0 string_table.0
        both_written.0
      ≡ ok ts)
    × Holds.Holds ts filed
    × (length filed ≤ alert_size)
    × AllFiled two_opcodes strings filed instructions
unfolding Dynarray.dynarray_size
env_optimize-AllFiled_example =
    env_optimize-AllFiled (both_added.2) (string_table.2) (omega arith) instructions both_written.0
      (both_written.2) (omega (arith, (both_written.2).count)) all_named

abbrev world : World
world = record { opcodes = two_opcodes; strings = strings; written = strings; loaded = strings }

usable : AllUsable world instructions
unfolding last_index str_differs
usable = (
  Usable.string 4096 0 1 name name refl refl,
  (Usable.symbol 8192 0 1 1 name name refl (omega arith) refl refl (omega arith), tt),
)

write_codes-optimize_example :
    (od : OpcodeDict.OpcodeDict) × (ts : TextSeg) × (l : ℕ → List Opcode) × (filed : List CString)
    × (ys : List (ℕ × CodeWord)) × (out : List ℕ) × (q' : Program) × ((stubs_from
            ((Dynarray.dynarray_size both_written.0.code + 1) / 2)
            0
            (linked both_written.0)
          >>= optimize both_added.0)
        ≡ ok od)
    × (env_optimize both_added.0 string_table.0 (linked both_written.0) ≡ ok ts)
    × AllCodable (file_tables world l filed) instructions ys
    × (write_codes
          ((Dynarray.dynarray_size both_written.0.code + 1) / 2)
          0
          od
          (linked both_written.0)
          ts
          (file_to [])
        ≡ ok (file_to out))
    × (read_codes
          ((Dynarray.dynarray_size both_written.0.code + 1) / 2)
          od
          ts
          (linked (new-HasLabels.0))
          (file_from out)
        ≡ ok (q', file_from []))
    × HasCode q' (flat ys)
unfolding Dynarray.dynarray_size
write_codes-optimize_example =
    write_codes-optimize world instructions (linked both_written.0) (linked (new-HasLabels.0))
      (both_added.2) (string_table.2) (string_table.2) (refl, refl) (string_table.2)
      (string_table.2) (omega arith) (omega arith) usable (both_written.2) (new-HasLabels.3)
      (omega (arith, (both_written.2).count))
