-- ===== src/Parsing/Stuck.antt =====
-- llmsh/src/parsing.rs, `parse`: the deletions of a hidden identifier behind a carriage return.
use mathlib.Core.Path.{ap₂, subst}
use llmsh.Base.{
  ℕ, zero, suc, ◌+◌, ◌-◌, ◌<◌, false, some, List, [], ◌∷◌, ◌++◌, Bytes, ◌≡◌, refl, sym, ap, ◌∙◌,
  arith, Eq, get, ok, length, length-append, get_elem?, drop-all, ltb, append-nil,
}
use llmsh.Parsing.{StepResults, Transition, string_id, BufferParser, parse, delete_char}
use llmsh.Parsing.Leftmost.{IsLeftmost}
use llmsh.Parsing.Reference.{identifiers, Reader, Reads, Runs, done, more, feed, display, deletions}
use llmsh.Parsing.Streams.{IsClear-feed, Runs-read}
use llmsh.Parsing.Parses.{IsValid, IsClear-Sim, parse-total}
use llmsh.Parsing.Visible.{output}
use llmsh.Parsing.Screens.{write}
use llmsh.Parsing.Cleaned.{first_matched}
use llmsh.Parsing.Hidden.{seen-read}

-- A terminal with the cursor in the first column, where a backspace does nothing: a blank and
-- a backspace come back to it, and once they blanked the first cell, again changes nothing.
pub record IsHome {Screen : Type 0} (put : ℕ → Screen → Screen) (s : Screen) : Type 0 where
  pub stays : put 8 s ≡ s
  pub blanked_stays : put 8 (put 8 (put 32 s)) ≡ put 8 (put 32 s)
  pub blanked : put 8 (put 32 (put 8 (put 32 s))) ≡ put 8 (put 32 s)

module _ {Screen : Type 0} (put : ℕ → Screen → Screen) (s : Screen) (home : IsHome put s) where
  deleted_once : write put delete_char s ≡ put 8 (put 32 s)
  deleted_once = ap (λ t. put 8 (put 32 t)) home.stays

  deleted_again : (n : ℕ) → write put (deletions n) (put 8 (put 32 s)) ≡ put 8 (put 32 s)
  deleted_again zero = refl
  deleted_again (suc n) =
      ap (λ t. write put (deletions n) (put 8 (put 32 t))) home.blanked_stays
      ∙ ap (write put (deletions n)) home.blanked
      ∙ deleted_again n

  -- Any number of deletions blanks one cell.
  deletions-home : (n : ℕ) → 0 < n → write put (deletions n) s ≡ put 8 (put 32 s)
  deletions-home zero lt = absurd (omega arith)
  deletions-home (suc n) lt = ap (write put (deletions n)) deleted_once ∙ deleted_again n

not_below : (a b : ℕ) → b < a → ltb a b ≡ false
not_below a b lt = ground arith

module _ {S E1 E2 : Type 0} ⦃e : Eq S⦄ where
  -- If all that was read is parsed and ends in a part of a hidden identifier of the state, that
  -- part left the cursor in the first column, as a carriage return does, and the next read ends with
  -- the identifier, which is the first one found, then `parse` makes the transition, but on the screen
  -- its deletions blank the first cell alone: the rest of what was shown stays.
  pub parse-stuck :
      (p : BufferParser S E1 E2) (input : Bytes) (v : IsValid p) (ts : List (Transition S E1))
      (k i : ℕ) (id : Bytes) (s : S) (event : E1) {Screen : Type 0} (put : ℕ → Screen → Screen)
      (base : Screen)
      → p.parsed_length ≡ length p.input_buffer
      → get p.state_map v.reader.state ≡ some ts
      → get_elem? ts k ≡ some (string_id id false, s, event)
      → IsLeftmost (identifiers ts) (v.reader.text ++ input) k i
      → i < length v.reader.text
      → i + length id ≡ length (v.reader.text ++ input)
      → 0 < length input
      → IsHome put (write put v.reader.text base)
      → (results : List (StepResults E1 E2)) × (p' : BufferParser S E1 E2) × (parse p input
          ≡ ok (results, p'))
        × (p'.state ≡ s)
        × (write put (output results) (write put v.reader.text base)
            ≡ put 8 (put 32 (write put v.reader.text base)))
  parse-stuck p input v ts k i id s event put base read g listed l before ends some_input home =
      let (results, p', v', parsed, runs) = parse-total p input v in
      let clear =
        IsClear-feed p.state_map p.echo_events v.configured.nonempty v.reader input
          (IsClear-Sim p v.reader v.configured v.sim) in
      let (shows, at_s) = only runs refl in
      let many : 0 < length v.reader.text - i = omega arith in
      (
        results,
        p',
        parsed,
        ap (λ r. r.state) (sym v'.sim.is_view) ∙ at_s,
        ap (λ t. write put t (write put v.reader.text base)) shows
            ∙ deletions-home put (write put v.reader.text base) home (length v.reader.text - i)
                many,
      )
    where
      seen : v.reader.seen ≡ length v.reader.text
      seen = seen-read p v read

      only :
          {r : Reader S} {xs : List (StepResults E1 E2)} {r' : Reader S}
          → Runs p.state_map p.echo_events r xs r'
          → r ≡ feed v.reader input
          → (output xs ≡ deletions (length v.reader.text - i)) × (r'.state ≡ s)
      only (done {r = r} all) is =
          let a = ap (λ (r : Reader S). r.seen) is in
          let b = ap (λ (r : Reader S). length r.text) is in
          absurd (omega (arith, a, b, all, seen, length-append v.reader.text input))
      only (more {r = r} {result = x} {r' = r1} {results = xs} h runs) is =
          let whole = v.reader.text ++ input in
          let (is_x, same) =
            first_matched p.state_map p.echo_events v.configured.nonempty put (feed v.reader input)
              r1 x ts k i id false s event g listed l
              (subst (λ r. Reads p.state_map p.echo_events r x r1) is h) in
          let empty : r1.text ≡ [] =
            ap (λ r. r.text) same ∙ drop-all (i + length id) whole (omega arith) in
          let all : r1.seen ≡ length r1.text = ap (λ r. r.seen) same ∙ ap length (sym empty) in
          let (none_left, end_same) =
            Runs-read p.state_map p.echo_events v.configured.nonempty runs all in
          let old = not_below v.reader.seen i (omega (arith, seen, before)) in
          (
            ap₂ (λ y ys. output (y ∷ ys)) is_x none_left
                ∙ append-nil (display whole v.reader.seen i i)
                ∙ rw old (ap (λ n. deletions (n - i)) seen),
            ap (λ r. r.state) (end_same ∙ same),
          )
