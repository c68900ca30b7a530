-- ===== src/Tests/Programs.antt =====
-- Runs of the models of src/vm/program.c and src/compiler/opcode_chain.c, and their theorems at
-- concrete inputs.
use tinyaml.Prelude.{
  ℕ, ◌+◌, ◌*◌, ◌%◌, ◌^◌, ◌<◌, ◌≡◌, ◌≢◌, ◌⊎◌, refl, arith, some, none, List, [], ◌∷◌, ◌||◌,
  if◌then◌else◌, get_elem?, set, replicate,
}
use tinyaml.Prelude.{Run, ok, trap}
use tinyaml.Dynarray
use tinyaml.Hashtab
use tinyaml.Hashtab.{hash_size}
use tinyaml.Hashtab.Keys.{CString, str_differs, hash_str}
use tinyaml.TextSeg
use tinyaml.TextSeg.{TextSeg}
use tinyaml.TextSeg.Find.{last_index}
use tinyaml.OpcodeDict.{OpcodeDict, stub_by_name}
use tinyaml.Program
use tinyaml.Program.{
  Program, CodeWord, number, new, write_code, fetch, get_code_size, add_label, label_to_ofs,
  lookup_label_by_offset, search_loop,
}
use tinyaml.Program.Code.{HasCode, fetch-write_code, init-HasWords}
use tinyaml.Program.Labels.{label_to_ofs-add_label, new-HasLabels, add_label_new}
use tinyaml.Program.LabelTable.{HasLabels, is_known}
use tinyaml.Program.Lookup.{lookup_label_by_offset_lem}
use tinyaml.Program.Search.{IsSorted}
use tinyaml.OpcodeChain
use tinyaml.OpcodeChain.Write
use tinyaml.OpcodeChain.{Node, NodeType, count}
use tinyaml.OpcodeChain.Write.{chain_serialize}
use tinyaml.OpcodeChain.Operands.{chain_serialize-label}

-- "a"
abbrev name : CString
name = 97 ∷ []

-- A new program.
start : (p : Program) × (new ≡ ok p) × HasLabels p.labels [] [] × HasCode p []
start = new-HasLabels

fetch-write_code_example :
    (p' : Program) × (write_code start.0 (number 4096) (number 7) ≡ ok p')
    × HasCode p' (number 4096 ∷ number 7 ∷ [])
    × (get_code_size p' ≡ get_code_size start.0 + 2)
    × (fetch p' (get_code_size start.0) ≡ ok (number 4096, number 7))
    × ((ip : ℕ) → ip + 1 < 0 → fetch p' ip ≡ fetch start.0 ip)
fetch-write_code_example = fetch-write_code start.0 (number 4096) (number 7) start.3 (omega arith)

label_to_ofs-add_label_example :
    (p' : Program) × (names' : List CString) × (offs' : List ℕ) × (add_label start.0 12 name
      ≡ ok p')
    × HasLabels p'.labels names' offs'
    × ((s : CString)
        → label_to_ofs p' s
          ≡ (if is_known name [] || str_differs name s then label_to_ofs start.0 s else ok 12))
label_to_ofs-add_label_example =
    label_to_ofs-add_label start.0 12 name start.2 (omega arith) (λ e. cc)

-- A program with the label "a" at 12.
labelled :
    (p : Program) × (add_label start.0 12 name ≡ ok p) × HasLabels p.labels (name ∷ []) (12 ∷ [])
unfolding last_index str_differs
labelled = add_label_new start.0 12 name start.2 (omega arith) refl

lookup_label_by_offset_lem_example :
    (s : CString) × (lookup_label_by_offset labelled.0.labels 10 ≡ ok (some s))
    × (((k : ℕ) × (get_elem? (name ∷ []) k ≡ some s) × (get_elem? {A = ℕ} (12 ∷ []) k ≡ some 12))
        ⊎ ((s ≡ []) × (IsSorted (0 ∷ 12 ∷ []) → (k : ℕ) → get_elem? {A = ℕ} (12 ∷ []) k ≢ some 12)))
lookup_label_by_offset_lem_example = lookup_label_by_offset_lem 10 labelled.2 (omega arith)

-- A program with no strings, and a dictionary with the opcode "j" on labels at the address 4096.
abbrev no_strings : TextSeg
no_strings = record {
  by_index = record { reserved = 16; size = 1; cells = set (replicate 16 none) 0 (some []) };
  by_text = set (replicate hash_size []) 0 (([], 0) ∷ []);
}

abbrev program : Program
program = record {
  env = none;
  loadlibs = no_strings;
  requires = no_strings;
  strings = no_strings;
  labels = record {
    labels = no_strings;
    offsets = record { reserved = 16; size = 1; cells = replicate 16 0 };
  };
  data_seg = record { reserved = 0; size = 0; cells = [] };
  code = record { reserved = 0; size = 0; cells = [] };
}

abbrev dict : OpcodeDict
dict = record {
  stub_by_index = λ a. record { reserved = 0; size = 0; cells = [] };
  stub_by_name = λ a. set (replicate hash_size []) 106 ((106 ∷ [], 4096) ∷ []);
  wordcode_by_stub = replicate hash_size [];
  name_by_stub = replicate hash_size [];
  overrides_by_stub = replicate hash_size [];
}

abbrev jump : Node
jump = record {
  type = NodeType.node_opcode;
  name = 106 ∷ [];
  arg = some name;
  arg_type = 5;
  lofs = 0;
  row = 1;
  col = 1;
}

abbrev target : Node
target = record {
  type = NodeType.node_label;
  name = name;
  arg = none;
  arg_type = 0;
  lofs = 0;
  row = 2;
  col = 1;
}

abbrev no_numbers : CString → ℕ
no_numbers s = 0

-- A loop: the label, and a jump to it.
abbrev chain : List Node
chain = jump ∷ target ∷ jump ∷ []

abbrev result {ℓ} : {A : Type ℓ} → A → Run A → A
result x (ok y) = y
result x (trap t) = x

written : List Node × Program
unfolding chain_serialize
written = result (chain, program) (chain_serialize no_numbers no_numbers chain dict program)

chain_run : chain_serialize no_numbers no_numbers chain dict program ≡ ok (written.0, written.1)
unfolding written Write.place Write.visit add_label TextSeg.find_by_text Hashtab.find hash_str
    TextSeg.enter Hashtab.add Dynarray.write Dynarray.dynarray_size Dynarray.store Dynarray.extend
    Dynarray.make_room TextSeg.text_to_index str_differs Write.emit Write.emit_node
    Dynarray.quantize Dynarray.reserve Write.is_relative OpcodeChain.label_offset
    Write.opcode_serialize Write.operand stub_by_name Program.append_pair get_code_size
    Program.reserve_code Program.reserve_data write_code
chain_run = refl

chain_serialize-label_example :
    (op : ℕ) × (x : ℕ) × (get_code_size (written.1) ≡ get_code_size program + 2 * count chain)
    × (fetch (written.1) (get_code_size program + 2 * count (jump ∷ target ∷ []))
        ≡ ok (number op, number x))
    × ((get_code_size program + 2 * count (jump ∷ target ∷ []) + x) % 2 ^ 64
        ≡ (get_code_size program + 2 * count (jump ∷ [])) % 2 ^ 64)
unfolding Dynarray.init Write.is_relative
chain_serialize-label_example =
    chain_serialize-label no_numbers no_numbers chain (written.0) (jump ∷ target ∷ []) []
      (jump ∷ []) (jump ∷ []) jump target name dict program (written.1) []
      (init-HasWords (number 0)) ((λ h k. cc), ((λ h k. cc), ((λ h k. cc), tt))) refl refl refl refl
      refl refl refl refl (refl, tt) chain_run
