-- ===== src/OpcodeChain.antt =====
-- src/compiler/opcode_chain.c: a program as a chain of nodes, and the two passes that write it into the
-- segments of a program. The C library's `atoi` and `atof` are parameters; a chain is a list, a node's
-- pointers to strings are the strings.
pub mod Emitted
pub mod Write
pub mod Passes
pub mod Resolve
pub mod Operands
use tinyaml.Prelude.{
  ℕ, zero, suc, ◌+◌, ◌-◌, ◌*◌, ◌^◌, ◌%◌, ◌<◌, Bool, true, false, Option, none, some, List, [], ◌∷◌,
  ◌++◌, ltb, ◌==◌, not, ◌&&◌, ◌||◌, if◌then◌else◌,
}
use tinyaml.Prelude.{Run, ok, trap, ◌>>=◌, ◌>>◌, require, expect, Trap}
use tinyaml.Dynarray
use tinyaml.Dynarray.{Dynarray}
use tinyaml.Hashtab.Keys.{CString, str_differs}
use tinyaml.TextSeg
use tinyaml.OpcodeDict.{OpcodeDict, stub_by_name}
use tinyaml.Program.{
  Program, CodeWord, number, write_code, find_string, add_label, reserve_code, reserve_data,
  get_code_size,
}

-- `opcode_chain_node_type_t`
pub data NodeType : Type 0 where
  node_opcode node_label node_lang_def node_lang_plug node_data : NodeType

-- `struct _opcode_chain_node_t`
pub record Node : Type 0 where
  pub type : NodeType
  pub name : CString
  pub arg : Option CString
  pub arg_type : ℕ
  pub lofs : ℕ
  pub row : ℕ
  pub col : ℕ

abbrev pub is_opcode : NodeType → Bool
is_opcode NodeType.node_opcode = true
is_opcode NodeType.node_label = false
is_opcode NodeType.node_lang_def = false
is_opcode NodeType.node_lang_plug = false
is_opcode NodeType.node_data = false

abbrev pub is_label : NodeType → Bool
is_label NodeType.node_label = true
is_label NodeType.node_opcode = false
is_label NodeType.node_lang_def = false
is_label NodeType.node_lang_plug = false
is_label NodeType.node_data = false

-- `opcode_chain_add_label`, `opcode_chain_add_langplug`, `opcode_chain_add_opcode` and
-- `opcode_chain_add_data`, each with its `ochain_new_...`; the fields that the code leaves unset are 0.
unfoldable pub add_label_node : List Node → CString → ℕ → ℕ → List Node
add_label_node oc label row col =
    oc
    ++ (record {
      type = NodeType.node_label;
      name = label;
      arg = none;
      arg_type = 0;
      lofs = 0;
      row = row;
      col = col;
    }
        ∷ [])

unfoldable pub add_langplug : List Node → CString → CString → ℕ → ℕ → List Node
add_langplug oc plugin plug row col =
    oc
    ++ (record {
      type = NodeType.node_lang_plug;
      name = plugin;
      arg = some plug;
      arg_type = 0;
      lofs = 0;
      row = row;
      col = col;
    }
        ∷ [])

unfoldable pub add_opcode : List Node → ℕ → CString → Option CString → ℕ → ℕ → List Node
add_opcode oc arg_type opcode arg row col =
    oc
    ++ (record {
      type = NodeType.node_opcode;
      name = opcode;
      arg = arg;
      arg_type = arg_type;
      lofs = 0;
      row = row;
      col = col;
    }
        ∷ [])

-- The number of copies is "1" where none is given.
unfoldable pub add_data : List Node → ℕ → CString → Option CString → ℕ → ℕ → List Node
add_data oc arg_type text rep row col =
    oc
    ++ (record {
      type = NodeType.node_data;
      name = text;
      arg = some (elim rep [ none ↦ 49 ∷ [] | some r ↦ r ]);
      arg_type = arg_type;
      lofs = 0;
      row = row;
      col = col;
    }
        ∷ [])

-- `opcode_chain_count` with `incr`
unfoldable pub count : List Node → ℕ
count [] = 0
count (n ∷ ns) = (if is_opcode n.type then 1 else 0) + count ns

-- `opcode_label_to_ofs`: 0 where there is no such label.
unfoldable pub label_offset : List Node → CString → ℕ
label_offset [] label = 0
label_offset (n ∷ ns) label =
    if is_label n.type && not (str_differs n.name label) then n.lofs else label_offset ns label
