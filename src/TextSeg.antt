-- ===== src/TextSeg.antt =====
-- src/vm/text_seg.c with include/text_seg.h: tables of strings, with the index of each. A pointer to
-- a string is the string, NULL is `none`. A table is an array by index and a hash table by text.
pub mod Holds
pub mod Find
pub mod Intern
pub mod Copy
pub mod Stored
pub mod Environment
use tinyaml.Prelude.{
  ℕ, zero, suc, ◌+◌, ◌-◌, ◌^◌, Bool, Option, none, some, List, [], ◌∷◌, leb, ◌==◌, not,
  if◌then◌else◌, length,
}
use tinyaml.Prelude.{Run, ok, ◌>>=◌, ◌>>◌, require, expect, Trap}
use tinyaml.Dynarray
use tinyaml.Dynarray.{Dynarray}
use tinyaml.Hashtab
use tinyaml.Hashtab.{Table}
use tinyaml.Hashtab.Keys.{CString, str_ops, str_differs}
use tinyaml.AbstractIo.{Writer, Reader, write_word, write_string, read_word, read_string}

-- `struct _text_seg_t`
pub record TextSeg : Type 0 where
  pub by_index : Dynarray (Option CString)
  pub by_text : Table CString ℕ

-- The two additions of `text_seg_find_by_text` and `_text_seg_append`.
unfoldable pub enter : TextSeg → CString → Run TextSeg
enter ts s = do
  t ← Hashtab.add str_ops (some s) (Dynarray.dynarray_size ts.by_index) ts.by_text
  d ← Dynarray.write none ts.by_index (Dynarray.dynarray_size ts.by_index) (some s)
  ok (record { by_index = d; by_text = t })

-- `_text_seg_append`
unfoldable pub append : TextSeg → CString → Run TextSeg
unfolding enter
append ts sym = enter ts sym

-- `text_seg_find_by_text`: the string that it returns, and the table.
unfoldable pub find_by_text : TextSeg → CString → Run (Option CString × TextSeg)
find_by_text ts s = Hashtab.find str_ops 0 (some s) ts.by_text >>= λ ofs.
    if ofs == 0
    then enter ts s >>= (λ ts'. ok (some s, ts'))
    else Dynarray.read none ts.by_index ofs >>= (λ r. ok (r, ts))

-- `text_seg_init`
unfoldable pub init : Run TextSeg
init = find_by_text (record { by_index = Dynarray.init; by_text = Hashtab.init }) [] >>= λ (_, ts).
    ok ts

-- `text_seg_find_by_index`
unfoldable pub find_by_index : TextSeg → ℕ → Run (Option CString)
find_by_index ts i =
    if leb (Dynarray.dynarray_size ts.by_index) i then ok none else Dynarray.read none ts.by_index i

-- `text_seg_text_to_index`; a text that is not there has the index -1.
unfoldable pub text_to_index : TextSeg → CString → Run ℕ
text_to_index ts s = Hashtab.find_e str_ops (some s) ts.by_text >>= λ e.
    ok (elim e [ none ↦ 2 ^ 64 - 1 | some (_, i) ↦ i ])

-- `text_seg_deinit`: the strings that are freed.
unfoldable pub deinit : TextSeg → Run (List (Option CString))
deinit ts = Dynarray.deinit ts.by_index

-- The loop of `text_seg_copy`, from the index `i` on, with the rounds left.
unfoldable pub copy_loop : ℕ → ℕ → TextSeg → TextSeg → Run TextSeg
copy_loop zero i dest src = ok dest
copy_loop (suc n) i dest src = do
  r ← Dynarray.read none src.by_index i
  s ← expect Trap.null_pointer r
  found ← find_by_text dest s
  copy_loop n (i + 1) (found.1) src

-- `text_seg_copy`
unfoldable pub copy : TextSeg → TextSeg → Run TextSeg
copy dest src = copy_loop (Dynarray.dynarray_size src.by_index - 1) 1 dest src

-- `0xFFFFFFFF`
abbrev pub end_mark : ℕ
end_mark = 0xFFFFFFFF

-- The loop of `text_seg_serialize`.
unfoldable pub write_loop : ℕ → ℕ → TextSeg → Writer → Run Writer
write_loop zero i ts w = ok w
write_loop (suc n) i ts w = do
  r ← Dynarray.read none ts.by_index i
  s ← expect Trap.null_pointer r
  w ← write_word w (1 + length s)
  w ← write_string w s
  write_loop n (i + 1) ts w

-- `text_seg_serialize`
unfoldable pub serialize : TextSeg → Writer → CString → Run Writer
serialize ts w sec_name = do
  w ← write_string w sec_name
  w ← write_word w (Dynarray.dynarray_size ts.by_index)
  w ← write_loop (Dynarray.dynarray_size ts.by_index) 0 ts w
  write_word w end_mark

-- The loop of `text_seg_unserialize`.
unfoldable pub read_loop : ℕ → TextSeg → Reader → Run (TextSeg × Reader)
read_loop zero ts r = ok (ts, r)
read_loop (suc n) ts r = do
  (w, r) ← read_word r
  (s, r) ← read_string r
  require Trap.assert_failed (length s + 1 == w)
  found ← find_by_text ts s
  read_loop n (found.1) r

-- `text_seg_unserialize`
unfoldable pub unserialize : TextSeg → Reader → CString → Run (TextSeg × Reader)
unserialize ts r sec_name = do
  (s, r) ← read_string r
  require Trap.assert_failed (not (str_differs s sec_name))
  (tot, r) ← read_word r
  let ts = record ts { by_index = Dynarray.reserve none ts.by_index tot }
  (w, r) ← read_word r
  require Trap.assert_failed (w == 1)
  (s, r) ← read_string r
  require Trap.assert_failed (length s == 0)
  (ts, r) ← read_loop (tot - 1) ts r
  (w, r) ← read_word r
  require Trap.assert_failed (w == end_mark)
  ok (ts, r)
