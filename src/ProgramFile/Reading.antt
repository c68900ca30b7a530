-- ===== src/ProgramFile/Reading.antt =====
-- `program_unserialize` of src/vm/program.c.
use tinyaml.Prelude.{ℕ, zero, suc, ◌+◌, ◌-◌, ◌/◌, none, some, ◌==◌, not, length}
use tinyaml.Prelude.{Run, ok, ◌>>=◌, ◌>>◌, require, expect, Trap}
use tinyaml.Dynarray
use tinyaml.Dynarray.{Dynarray, store}
use tinyaml.Hashtab.Keys.{CString, str_differs}
use tinyaml.AbstractIo.{Reader, read_word, read_string}
use tinyaml.TextSeg
use tinyaml.TextSeg.{TextSeg, end_mark}
use tinyaml.OpcodeDict
use tinyaml.OpcodeDict.Files.{dict_unserialize}
use tinyaml.OpcodeDict.{stub_by_code, wc_argtype}
use tinyaml.OpcodeDict.Files.{stub_resolve}
use tinyaml.Program.{Program, number, new, add_label, write_code}
use tinyaml.ProgramFile.{
  Context, arg_unserialize, lib_section, req_section, env_section, strings_section, labels_section,
  code_section, data_section,
}

-- A string that is read and must be the given one, and a word that must be the end mark.
unfoldable pub expect_string : CString → Reader → Run Reader
expect_string s r = do
  (str, r) ← read_string r
  require Trap.assert_failed (not (str_differs str s))
  ok r

unfoldable pub expect_mark : Reader → Run Reader
expect_mark r = do (wc, r) ← read_word r; require Trap.assert_failed (wc == end_mark); ok r

-- The loops over the libraries and the required files, from the index `i` on.
unfoldable pub load_all :
    (Context → CString → Run Context) → ℕ → ℕ → TextSeg → Context → Run Context
load_all f zero i ts vm = ok vm
load_all f (suc n) i ts vm = do
  name ← TextSeg.find_by_index ts i
  s ← expect Trap.null_pointer name
  vm ← f vm s
  load_all f n (i + 1) ts vm

-- The loops of `program_unserialize` over labels, code and data.
unfoldable pub read_labels : ℕ → Program → Reader → Run (Program × Reader)
read_labels zero p r = ok (p, r)
read_labels (suc n) p r = do
  (wc, r) ← read_word r
  (str, r) ← read_string r
  require Trap.assert_failed (length str == wc)
  (wc, r) ← read_word r
  p ← add_label p wc str
  read_labels n p r

unfoldable pub read_codes :
    ℕ → OpcodeDict.OpcodeDict → TextSeg → Program → Reader → Run (Program × Reader)
read_codes zero od env p r = ok (p, r)
read_codes (suc n) od env p r = do
  (wc, r) ← read_word r
  op ← stub_by_code od wc
  (a, r) ← read_word r
  arg ← arg_unserialize p (wc_argtype wc) a (some env)
  p ← write_code p (number op) arg
  read_codes n od env p r

unfoldable pub read_items : ℕ → ℕ → Program → Reader → Run (Program × Reader)
read_items zero i p r = ok (p, r)
read_items (suc n) i p r = do
  (op, r) ← read_word r
  d ← store p.data_seg i (number op)
  (a, r) ← read_word r
  arg ← arg_unserialize p op a none
  d ← store d (i + 1) arg
  read_items n (i + 2) (record p { data_seg = d }) r

module _ (add_loadlib add_require : Context → CString → Run Context) (dlsym : CString → ℕ) where
  -- The tables at the start of a file: the program with its libraries, required files and strings, the
  -- machine, the symbols and the dictionary of the file.
  unfoldable pub read_tables :
      Context → Reader → Run (Program × TextSeg × OpcodeDict.OpcodeDict × Reader)
  read_tables vm r = do
    env ← TextSeg.init
    p ← new
    (loadlibs, r) ← TextSeg.unserialize p.loadlibs r lib_section
    vm ← load_all add_loadlib (Dynarray.dynarray_size loadlibs.by_index - 1) 1 loadlibs vm
    (requires, r) ← TextSeg.unserialize p.requires r req_section
    vm ← load_all add_require (Dynarray.dynarray_size requires.by_index - 1) 1 requires vm
    (env, r) ← TextSeg.unserialize env r env_section
    (strings, r) ← TextSeg.unserialize p.strings r strings_section
    (od, r) ← dict_unserialize (stub_resolve vm.dict dlsym) OpcodeDict.init r
    ok (
      record p {
        env = some vm.symbols;
        loadlibs = loadlibs;
        requires = requires;
        strings = strings;
      },
      env,
      od,
      r,
    )

  -- `program_unserialize`
  unfoldable pub program_unserialize : Context → Reader → Run (Program × Reader)
  unfolding read_tables
  program_unserialize vm r = do
    (p, env, od, r) ← read_tables vm r
    r ← expect_string labels_section r
    (tot, r) ← read_word r
    (p, r) ← read_labels (tot - 1) p r
    r ← expect_mark r
    r ← expect_string code_section r
    (tot, r) ← read_word r
    let reserved = record p { code = Dynarray.reserve (number 0) p.code (tot + 2) }
    (p, r) ← read_codes ((tot + 1) / 2) od env reserved r
    r ← expect_mark r
    r ← expect_string data_section r
    (wc, r) ← read_word r
    let reserved = record p { data_seg = Dynarray.reserve (number 0) p.data_seg (wc + 2) }
    (p, r) ← read_items ((wc + 1) / 2) 0 reserved r
    ok (record p { data_seg = record (p.data_seg) { size = wc } }, r)
