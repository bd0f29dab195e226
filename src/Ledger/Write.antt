-- ===== src/Ledger/Write.antt =====
-- `_write_jsonl_record`: the bytes that an append leaves, and the lines that the next reader gets.
use deviatdd.Prelude.{
  ℕ, ◌≡◌, refl, ap, Bool, true, false, not, Option, none, some, List, [], ◌∷◌, ◌++◌, arith, all,
  ltb, ◌==◌, if◌then◌else◌, ◌∙◌, Bool-cases, inl, inr, ◌&&◌, ◌||◌, some_inj, last?,
}
use deviatdd.Prelude.Text.{Text}

-- A file and a record are their bytes in UTF-8.
abbrev pub newline : Text
newline = 10 ∷ []

-- A text file is read with universal newlines: a carriage return reads as a newline.
abbrev pub ends_line : ℕ → Bool
ends_line c = c == 10 || c == 13

-- What `f.read(1)` before the end of the file answers: none is UnicodeDecodeError, since no byte
-- above 127 is a character of its own, and otherwise whether it is a newline.
abbrev pub read_last : ℕ → Option Bool
read_last c = if ltb c 128 then some (ends_line c) else none

abbrev pub write_after : Text → Text → Option Bool → Option Text
write_after file json none = none
write_after file json (some true) = some (file ++ (json ++ newline))
write_after file json (some false) = some (file ++ (newline ++ (json ++ newline)))

abbrev pub write_behind : Text → Text → Option ℕ → Option Text
write_behind file json none = some (json ++ newline)
write_behind file json (some c) = write_after file json (read_last c)

-- None is the exception; nothing is written then.
unfoldable pub write_jsonl_record : Text → Text → Option Text
write_jsonl_record file json = write_behind file json (last? file)

-- The translation of newlines; the test says that a carriage return stood before.
unfoldable pub universal : Bool → Text → Text
universal cr [] = []
universal cr (c ∷ s) =
    let after = universal true s in
    let rest = universal false s in
    if c == 13 then 10 ∷ after else if cr && c == 10 then rest else c ∷ rest

abbrev pub push : ℕ → List Text → List Text
push c [] = (c ∷ []) ∷ []
push c (l ∷ ls) = (c ∷ l) ∷ ls

abbrev pub cons_line : ℕ → List Text → List Text
cons_line c ls = if c == 10 then [] ∷ ls else push c ls

unfoldable pub split_feeds : Text → List Text
split_feeds [] = []
split_feeds (c ∷ s) = cons_line c (split_feeds s)

-- `for line in f`, each line without its newline.
unfoldable pub lines : Text → List Text
unfolding universal split_feeds
lines file = split_feeds (universal false file)

cons_line_nonempty :
    (c : ℕ) (ls : List Text) → (l : Text) × (ms : List Text) × (cons_line c ls ≡ l ∷ ms)
cons_line_nonempty c ls = elim (Bool-cases (c == 10)) [
  | inl p ↦ ([], ls, rw p)
  | inr p ↦ rw p (push_nonempty ls)
]
  where
    push_nonempty : (ls : List Text) → (l : Text) × (ms : List Text) × (push c ls ≡ l ∷ ms)
    push_nonempty [] = (c ∷ [], [], refl)
    push_nonempty (l ∷ ls) = (c ∷ l, ls, refl)

cons_line-append :
    (c d : ℕ) (ls ms : List Text)
    → cons_line c (cons_line d ls ++ ms) ≡ cons_line c (cons_line d ls) ++ ms
cons_line-append c d ls ms = let (l, ks, e) = cons_line_nonempty d ls in rw e (ground arith)

-- Whether a text ends within a line, if what stands before it does.
abbrev is_open : (ℕ → Bool) → Bool → Text → Bool
is_open ends b [] = b
is_open ends b (c ∷ s) = is_open ends (not (ends c)) s

abbrev feeds : ℕ → Bool
feeds c = c == 10

-- A text whose last line is not ended gains the newline.
feeds_open :
    (s t : Text)
    → is_open feeds false s ≡ true
    → split_feeds (s ++ 10 ∷ t) ≡ split_feeds s ++ split_feeds t
unfolding split_feeds
feeds_open [] t h = cc
feeds_open (c ∷ []) t h = ground arith
feeds_open (c ∷ d ∷ s) t h =
    ap (cons_line c) (feeds_open (d ∷ s) t h) ∙ cons_line-append c d (split_feeds s) (split_feeds t)

feeds_ended :
    (s t : Text)
    → is_open feeds false s ≡ false
    → split_feeds (s ++ t) ≡ split_feeds s ++ split_feeds t
unfolding split_feeds
feeds_ended [] t h = refl
feeds_ended (c ∷ []) t h = ground arith
feeds_ended (c ∷ d ∷ s) t h =
    ap (cons_line c) (feeds_ended (d ∷ s) t h)
    ∙ cons_line-append c d (split_feeds s) (split_feeds t)

abbrev in_line : Text → Bool
in_line s = all (λ c. not (ends_line c)) s

split_feeds-record : (s : Text) → in_line s ≡ true → split_feeds (s ++ newline) ≡ s ∷ []
unfolding split_feeds
split_feeds-record [] h = refl
split_feeds-record (c ∷ s) h = ground (arith, split_feeds-record s)

-- Whether the text ends with a carriage return, if what stands before it does.
abbrev returned : Bool → Text → Bool
returned cr [] = cr
returned cr (c ∷ s) = returned (c == 13) s

universal-append :
    (cr : Bool) (s t : Text) → universal cr (s ++ t) ≡ universal cr s ++ universal (returned cr s) t
unfolding universal
universal-append cr [] t = refl
universal-append cr (c ∷ s) t =
    ground (arith, universal-append true s t, universal-append false s t)

universal-is_open :
    (cr b : Bool) (s : Text)
    → cr && b ≡ false
    → is_open feeds b (universal cr s) ≡ is_open ends_line b s
unfolding universal
universal-is_open cr b [] h = refl
universal-is_open cr b (c ∷ s) h = ground (
  arith,
  universal-is_open true false s,
  universal-is_open false false s,
  universal-is_open false true s,
)

-- A record has no line break, so the translation leaves it alone.
universal-record :
    (cr : Bool) (c : ℕ) (s : Text)
    → in_line (c ∷ s) ≡ true
    → universal cr ((c ∷ s) ++ newline) ≡ (c ∷ s) ++ newline
unfolding universal
universal-record cr c [] h = ground arith
universal-record cr c (d ∷ s) h = ground (arith, universal-record false d s)

last-is_open :
    (b : Bool) (s : Text) (c : ℕ) → last? s ≡ some c → is_open ends_line b s ≡ not (ends_line c)
last-is_open b [] c h = cc
last-is_open b (d ∷ []) c h = ap (λ x. not (ends_line x)) (some_inj h)
last-is_open b (d ∷ e ∷ s) c h = last-is_open (not (ends_line d)) (e ∷ s) c h

last-returned : (cr : Bool) (s : Text) (c : ℕ) → last? s ≡ some c → returned cr s ≡ (c == 13)
last-returned cr [] c h = cc
last-returned cr (d ∷ []) c h = ap (λ x. x == 13) (some_inj h)
last-returned cr (d ∷ e ∷ s) c h = last-returned (d == 13) (e ∷ s) c h

last-none : (s : Text) → last? s ≡ none → s ≡ []
last-none [] h = refl
last-none (c ∷ []) h = cc
last-none (c ∷ d ∷ s) h = let e = last-none (d ∷ s) h in cc

abbrev pub lines_of : Option Text → Option (List Text)
lines_of none = none
lines_of (some file) = some (lines file)

abbrev pub ends_ascii : Option ℕ → Bool
ends_ascii none = true
ends_ascii (some c) = ltb c 128

abbrev pub is_record : Text → Bool
is_record [] = false
is_record (c ∷ s) = in_line (c ∷ s)

module _ (file : Text) (j : ℕ) (json : Text) (h : in_line (j ∷ json) ≡ true) where
  ended_lem :
      (c : ℕ)
      → last? file ≡ some c
      → ends_line c ≡ true
      → lines (file ++ ((j ∷ json) ++ newline)) ≡ lines file ++ (j ∷ json) ∷ []
  unfolding lines
  ended_lem c last e =
      ap split_feeds (
        universal-append false file ((j ∷ json) ++ newline)
        ∙ ap (λ t. universal false file ++ t) (universal-record (returned false file) j json h))
      ∙ feeds_ended (universal false file) ((j ∷ json) ++ newline)
          (universal-is_open false false file refl ∙ last-is_open false file c last ∙ ap not e)
      ∙ ap (λ ls. split_feeds (universal false file) ++ ls) (split_feeds-record (j ∷ json) h)

  open_lem :
      (c : ℕ)
      → last? file ≡ some c
      → ends_line c ≡ false
      → lines (file ++ (newline ++ ((j ∷ json) ++ newline))) ≡ lines file ++ (j ∷ json) ∷ []
  unfolding lines universal
  open_lem c last e =
      ap split_feeds (
        universal-append false file (newline ++ ((j ∷ json) ++ newline))
        ∙ ap (λ cr. universal false file ++ universal cr (newline ++ ((j ∷ json) ++ newline)))
            (last-returned false file c last ∙ not_return c e)
        ∙ ap (λ t. universal false file ++ 10 ∷ t) (universal-record false j json h))
      ∙ feeds_open (universal false file) ((j ∷ json) ++ newline)
          (universal-is_open false false file refl ∙ last-is_open false file c last ∙ ap not e)
      ∙ ap (λ ls. split_feeds (universal false file) ++ ls) (split_feeds-record (j ∷ json) h)
    where
      not_return : (c : ℕ) → ends_line c ≡ false → (c == 13) ≡ false
      not_return c e = ground arith

  behind_lem :
      (o : Option ℕ)
      → last? file ≡ o
      → lines_of (write_behind file (j ∷ json) o)
        ≡ (if ends_ascii o then some (lines file ++ (j ∷ json) ∷ []) else none)
  unfolding lines
  behind_lem none last =
      let empty = last-none file last in
      rw empty (
        ap (λ t. some (split_feeds t)) (universal-record false j json h)
        ∙ ap some (split_feeds-record (j ∷ json) h))
  behind_lem (some c) last = branches (ltb c 128) (ends_line c) refl
    where
      branches :
          (ascii ended : Bool)
          → ends_line c ≡ ended
          → lines_of (write_after file (j ∷ json) (if ascii then some ended else none))
            ≡ (if ascii then some (lines file ++ (j ∷ json) ∷ []) else none)
      branches false ended e = refl
      branches true true e = ap some (ended_lem c last e)
      branches true false e = ap some (open_lem c last e)

-- A record, which is not empty and has no line break, that is written to a file that is empty or ends
-- in an ASCII byte reads back as one more line, after the lines that were there, whether or not the
-- last of them was ended. To a file that ends in any other byte nothing is written, and the call
-- raises.
pub lines-write_jsonl_record :
    (file json : Text)
    → is_record json ≡ true
    → lines_of (write_jsonl_record file json)
      ≡ (if ends_ascii (last? file) then some (lines file ++ json ∷ []) else none)
unfolding write_jsonl_record
lines-write_jsonl_record file [] h = cc
lines-write_jsonl_record file (j ∷ json) h = behind_lem file j json h (last? file) refl
