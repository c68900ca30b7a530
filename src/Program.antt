-- ===== src/Program.antt =====
-- src/vm/program.c with include/program.h: the segments of a program, its labels, and the code.
-- The tables of strings are those of TextSeg; `struct _program_t` is in include/_impl.h.
pub mod LabelTable
pub mod Search
pub mod Code
pub mod Labels
pub mod Lookup
use tinyaml.Prelude.{
  ℕ, zero, suc, ◌+◌, ◌*◌, ◌/◌, ◌^◌, ◌%◌, Bool, true, false, Option, none, some, List, [], ◌∷◌, ltb,
  leb, ◌==◌, not, ◌&&◌, if◌then◌else◌,
}
use tinyaml.Prelude.{Run, ok, trap, ◌>>=◌, ◌>>◌, require, expect, Trap}
use tinyaml.Dynarray
use tinyaml.Dynarray.{Dynarray, load}
use tinyaml.Hashtab.Keys.{CString}
use tinyaml.TextSeg
use tinyaml.TextSeg.{TextSeg}

-- A word of the code or of the data: a number (an integer, the bits of a float, the address of a
-- stub), or the address of a string.
pub data CodeWord : Type 0 where
  number : ℕ → CodeWord
  text : CString → CodeWord

-- A pointer to a string as a word, and back. An address has no number, and no other number is the
-- address of a string.
abbrev pub as_word : Option CString → CodeWord
as_word none = number 0
as_word (some s) = text s

abbrev pub as_number : CodeWord → Run ℕ
as_number (number n) = ok n
as_number (text s) = trap Trap.out_of_bounds

abbrev pub as_text : CodeWord → Run (Option CString)
as_text (number n) = if n == 0 then ok none else trap Trap.out_of_bounds
as_text (text s) = ok (some s)

-- `struct _label_tab_t`
pub record LabelTab : Type 0 where
  pub labels : TextSeg
  pub offsets : Dynarray ℕ

-- `struct _program_t`; of the environment the symbols. The name of the source, the indices of grammars
-- and the symbols of the data are left out.
pub record Program : Type 0 where
  pub env : Option TextSeg
  pub loadlibs : TextSeg
  pub requires : TextSeg
  pub strings : TextSeg
  pub labels : LabelTab
  pub data_seg : Dynarray CodeWord
  pub code : Dynarray CodeWord

-- `program_new`
unfoldable pub new : Run Program
new = do
  table ← TextSeg.init
  offsets ← Dynarray.write 0 Dynarray.init 0 0
  strings ← TextSeg.init
  loadlibs ← TextSeg.init
  requires ← TextSeg.init
  ok (record {
    env = none;
    loadlibs = loadlibs;
    requires = requires;
    strings = strings;
    labels = record { labels = table; offsets = offsets };
    data_seg = Dynarray.init;
    code = Dynarray.init;
  })

-- `program_fetch`: the opcode and its argument.
unfoldable pub fetch : Program → ℕ → Run (CodeWord × CodeWord)
fetch p ip = do
  arg ← Dynarray.read (number 0) p.code (ip + 1)
  op ← Dynarray.read (number 0) p.code ip
  ok (op, arg)

-- `program_reserve_code` and `program_reserve_data`
unfoldable pub reserve_code : Program → ℕ → Program
reserve_code p sz = record p {
  code = Dynarray.reserve (number 0) p.code ((sz + Dynarray.dynarray_size p.code) % 2 ^ 64);
}

unfoldable pub reserve_data : Program → ℕ → Program
reserve_data p sz = record p {
  data_seg =
      Dynarray.reserve (number 0) p.data_seg ((sz + Dynarray.dynarray_size p.data_seg) % 2 ^ 64);
}

-- The writes of `program_write_code`, the argument first.
unfoldable pub append_pair : Dynarray CodeWord → CodeWord → CodeWord → Run (Dynarray CodeWord)
append_pair d op arg = do
  let ip = Dynarray.dynarray_size d
  d' ← Dynarray.write (number 0) d (ip + 1) arg
  Dynarray.write (number 0) d' ip op

-- `program_write_code`
unfoldable pub write_code : Program → CodeWord → CodeWord → Run Program
write_code p op arg = append_pair p.code op arg >>= λ d. ok (record p { code = d })

-- `program_get_code_size`
unfoldable pub get_code_size : Program → ℕ
get_code_size p = Dynarray.dynarray_size p.code

-- `program_find_string`
unfoldable pub find_string : Program → CString → Run (CodeWord × Program)
find_string p str =
    TextSeg.find_by_text p.strings str >>= λ (r, ts). ok (as_word r, record p { strings = ts })

-- `program_add_label` on the table; a label that has an offset keeps it.
unfoldable pub enter_label : LabelTab → ℕ → CString → Run LabelTab
enter_label t ip label = do
  (_, ts) ← TextSeg.find_by_text t.labels label
  index ← TextSeg.text_to_index ts label
  if leb (Dynarray.dynarray_size t.offsets) index
      then (Dynarray.write 0 t.offsets index ip >>= λ d. ok (record { labels = ts; offsets = d }))
      else ok (record t { labels = ts })

unfoldable pub add_label : Program → ℕ → CString → Run Program
unfolding enter_label
add_label p ip label = enter_label p.labels ip label >>= λ t. ok (record p { labels = t })

-- `program_label_to_ofs`; the index of a label that is not there is -1, not 0.
unfoldable pub label_to_ofs : Program → CString → Run ℕ
label_to_ofs p label = TextSeg.text_to_index p.labels.labels label >>= λ index.
    if index == 0 then ok 0 else load p.labels.offsets index

-- The loop of `program_ofs_to_label`, with the rounds left.
unfoldable pub ofs_loop : ℕ → ℕ → LabelTab → ℕ → Run (Option CString)
ofs_loop zero i t ip = ok none
ofs_loop (suc n) i t ip =
    let rest = ofs_loop n (i + 1) t ip in
    load t.offsets i >>= λ val. if val == ip then TextSeg.find_by_index t.labels i else rest

-- `program_ofs_to_label`
unfoldable pub ofs_to_label : Program → ℕ → Run (Option CString)
ofs_to_label p ip = ofs_loop (p.labels.offsets.size) 0 p.labels ip

-- The loop of `lookup_label_by_offset`, with fuel: the index that it finds, 0 if none.
unfoldable pub search_loop : ℕ → ℕ → ℕ → Dynarray ℕ → ℕ → Run ℕ
search_loop zero lower upper offsets ip = trap Trap.out_of_fuel
search_loop (suc fuel) lower upper offsets ip =
    let mid = (lower + upper) / 2 in
    load offsets mid >>= λ val.
    let found = if val == ip then mid else 0 in
    let lower' = if not (val == ip) && ltb val ip then mid else lower in
    let upper' = if not (val == ip) && ltb ip val then mid else upper in
    let again = search_loop fuel lower' upper' offsets ip in
    if (found == 0) && ltb (lower' + 1) upper' then again else ok found

-- `lookup_label_by_offset` and `program_lookup_label`; the empty string where no label is found.
unfoldable pub lookup_label_by_offset : LabelTab → ℕ → Run (Option CString)
unfolding search_loop
lookup_label_by_offset t ip = do
  found ← search_loop (suc t.offsets.size) 0 t.offsets.size t.offsets ((ip + 2) % 2 ^ 64)
  if found == 0 then ok (some []) else load t.labels.by_index found

unfoldable pub lookup_label : Program → ℕ → Run (Option CString)
unfolding lookup_label_by_offset
lookup_label p ip = lookup_label_by_offset p.labels ip
