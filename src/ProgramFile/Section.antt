-- ===== src/ProgramFile/Section.antt =====
-- The section of a file of src/vm/program.c that holds the code, written and read back.
use tinyaml.Prelude.{
  ℕ, suc, ◌+◌, ◌*◌, ◌/◌, ◌<◌, ◌≤◌, ◌≡◌, refl, arith, some, List, [], ◌∷◌, ◌++◌, length, ap, sym,
  ◌∙◌, ◌^◌, subst, append_assoc, append-nil, length-append,
}
use tinyaml.Prelude.{ok}
use tinyaml.Dynarray
use tinyaml.Dynarray.{Dynarray, alert_size}
use tinyaml.AbstractIo.{word_bytes}
use tinyaml.AbstractIo.Laws.{file_to, file_from, read-write_word}
use tinyaml.TextSeg.{TextSeg}
use tinyaml.TextSeg.Stored.{wrote_word}
use tinyaml.OpcodeDict
use tinyaml.Program.{Program, CodeWord, number, write_code}
use tinyaml.Program.Code.{HasWords, HasCode, append_pair-HasWords, read-HasCode}
use tinyaml.ProgramFile.{write_codes, arg_unserialize}
use tinyaml.ProgramFile.Reading.{read_codes}
use tinyaml.ProgramFile.Operand.{Tables, Codable, Uses, arg_unserialize-arg_serialize}

-- The code of a list of instructions.
abbrev pub flat : List (ℕ × CodeWord) → List CodeWord
flat [] = []
flat ((stub, arg) ∷ xs) = number stub ∷ arg ∷ flat xs

-- Instructions as written and as they are to be loaded.
pub data AllCodable (t : Tables) : List (ℕ × CodeWord) → List (ℕ × CodeWord) → Type 0 where
  none_left : AllCodable t [] []
  and_next :
      (stub : ℕ) (x y : CodeWord) {xs ys : List (ℕ × CodeWord)}
      → Codable t stub x y
      → AllCodable t xs ys
      → AllCodable t ((stub, x) ∷ xs) ((stub, y) ∷ ys)

abbrev bytes : List ℕ → List ℕ
bytes [] = []
bytes (w ∷ ws) = word_bytes 8 w ++ bytes ws

pub length-flat : (xs : List (ℕ × CodeWord)) → length (flat xs) ≡ 2 * length xs
length-flat [] = omega arith
length-flat ((s, x) ∷ xs) = omega (arith, length-flat xs)

-- The bytes of two more words.
bytes-append :
    (out ws : List ℕ) (v w : ℕ)
    → ((out ++ word_bytes 8 v) ++ word_bytes 8 w) ++ bytes ws ≡ out ++ bytes (v ∷ w ∷ ws)
bytes-append out ws v w =
    append_assoc (out ++ word_bytes 8 v) (word_bytes 8 w) (bytes ws)
    ∙ append_assoc out (word_bytes 8 v) (word_bytes 8 w ++ bytes ws)

bytes_before :
    (ws bs : List ℕ) (v w : ℕ)
    → bytes (v ∷ w ∷ ws) ++ bs ≡ word_bytes 8 v ++ (word_bytes 8 w ++ (bytes ws ++ bs))
bytes_before ws bs v w =
    append_assoc (word_bytes 8 v) (word_bytes 8 w ++ bytes ws) bs
    ∙ ap (λ k. word_bytes 8 v ++ k) (append_assoc (word_bytes 8 w) (bytes ws) bs)

module _ (t : Tables) {od od' : OpcodeDict.OpcodeDict} {env env' filed filed' : TextSeg}
    (p q : Program) (u : Uses t t.written od env filed p)
    (v : Uses t t.loaded od' env' filed' q) where
  -- What the reading program comes to from the bytes of words.
  Loads : ℕ → List (ℕ × CodeWord) → List ℕ → Type 0
  Loads n ys ws =
      (d : Dynarray CodeWord) (qs : List CodeWord) (bs : List ℕ)
      → HasWords (number 0) d qs
      → length qs + 2 * n ≤ alert_size
      → (d' : Dynarray CodeWord) × (read_codes n od' filed' (record q { code = d })
            (file_from (bytes ws ++ bs))
          ≡ ok (record q { code = d' }, file_from bs))
        × HasWords (number 0) d' (qs ++ flat ys)

  Loads-next :
      (n stub w wc : ℕ) (y : CodeWord) (ys : List (ℕ × CodeWord)) (ws : List ℕ)
      → wc < 2 ^ 64
      → w < 2 ^ 64
      → OpcodeDict.stub_by_code od' wc ≡ ok stub
      → arg_unserialize q (OpcodeDict.wc_argtype wc) w (some filed') ≡ ok y
      → Loads n ys ws
      → Loads (suc n) ((stub, y) ∷ ys) (wc ∷ w ∷ ws)
  unfolding Loads read_codes write_code arg_unserialize
  Loads-next n stub w wc y ys ws small_wc small_w coded operand rest d qs bs held room =
      let (_, first) = read-write_word wc [] (word_bytes 8 w ++ (bytes ws ++ bs)) small_wc in
      let (_, second) = read-write_word w [] (bytes ws ++ bs) small_w in
      let (d1, wrote, held1) = append_pair-HasWords (number stub) y held (omega arith) in
      let (d2, looped, held2) =
        rest d1 (qs ++ (number stub ∷ y ∷ [])) bs held1
          (omega (arith, length-append qs (number stub ∷ y ∷ []))) in
      (
        d2,
        ap (λ k. read_codes (suc n) od' filed' (record q { code = d }) (file_from k))
              (bytes_before ws bs wc w)
            ∙ rw (first, coded, second, operand, wrote) looped,
        subst (HasWords (number 0) d2) (append_assoc qs (number stub ∷ y ∷ []) (flat ys)) held2,
      )

  -- The instructions `xs` behind others: what is written, and what is loaded from it.
  code_lem :
      {xs ys : List (ℕ × CodeWord)} (before : List CodeWord)
      → AllCodable t xs ys
      → HasCode p (before ++ flat xs)
      → length before + 2 * length xs ≤ alert_size
      → (ws : List ℕ) × ((out : List ℕ)
          → write_codes (length xs) (length before) od p filed (file_to out)
            ≡ ok (file_to (out ++ bytes ws)))
        × Loads (length xs) ys ws
  unfolding Loads write_codes read_codes
  code_lem before none_left code room = (
    [],
    λ out. ap (λ k. ok (file_to k)) (sym (append-nil out)),
    λ d qs bs held room'. (d, refl, subst (HasWords (number 0) d) (sym (append-nil qs)) held),
  )
  code_lem before (and_next stub x y {xs} {ys} one others) code room =
      let (wc, w, small_wc, small_w, coded, operand, decoded, loaded) =
        arg_unserialize-arg_serialize t p q u v one in
      let (at, behind) = read-HasCode p before (flat xs) (number stub) x code (omega arith) in
      let next = before ++ (number stub ∷ x ∷ []) in
      let two : length before + 2 ≡ length next =
        omega (arith, length-append before (number stub ∷ x ∷ [])) in
      let (ws, wrote, loads) =
        code_lem next others
          (subst (HasCode p) (sym (append_assoc before (number stub ∷ x ∷ []) (flat xs))) code)
          (omega arith) in
      (
        wc ∷ w ∷ ws,
        λ out.
            rw
              (at, coded, behind, operand, wrote_word out wc, wrote_word (out ++ word_bytes 8 wc) w)
              (ap
                  (λ k.
                    write_codes (length xs) k od p filed
                      (file_to ((out ++ word_bytes 8 wc) ++ word_bytes 8 w)))
                  two
                ∙ wrote ((out ++ word_bytes 8 wc) ++ word_bytes 8 w)
                ∙ ap (λ k. ok (file_to k)) (bytes-append out ws wc w)),
        Loads-next (length xs) stub w wc y ys ws small_wc small_w decoded loaded loads,
      )

  -- Code whose opcodes and operands are in the tables, written to a file and read from it into a program
  -- without code, is the same instructions, with the same numbers and strings as operands, and with the
  -- numbers that the reading machine has for the same symbols; the reader goes on with the bytes behind.
  -- The rounds are those of `program_serialize` and `program_unserialize`; the code is at most 2 ^ 23
  -- words long.
  pub read_codes-write_codes :
      {xs ys : List (ℕ × CodeWord)} (bs : List ℕ)
      → AllCodable t xs ys
      → HasCode p (flat xs)
      → HasCode q []
      → Dynarray.dynarray_size p.code ≤ alert_size
      → (out : List ℕ) × (q' : Program) × (write_codes
            ((Dynarray.dynarray_size p.code + 1) / 2)
            0
            od
            p
            filed
            (file_to [])
          ≡ ok (file_to out))
        × (read_codes ((Dynarray.dynarray_size p.code + 1) / 2) od' filed' q (file_from (out ++ bs))
            ≡ ok (q', file_from bs))
        × HasCode q' (flat ys)
  unfolding Loads Dynarray.dynarray_size
  read_codes-write_codes {xs} {ys} bs codable code empty room =
      let rounds : (p.code.size + 1) / 2 ≡ length xs = omega (arith, code.count, length-flat xs) in
      let small : 0 + 2 * length xs ≤ alert_size = omega (arith, code.count, length-flat xs) in
      let (ws, wrote, loads) = code_lem [] codable code small in
      let (d, looped, held) = loads q.code [] bs empty small in
      (
        bytes ws,
        record q { code = d },
        ap (λ n. write_codes n 0 od p filed (file_to [])) rounds ∙ wrote [],
        ap (λ n. read_codes n od' filed' q (file_from (bytes ws ++ bs))) rounds ∙ looped,
        held,
      )
