-- ===== src/Parsing/Hidden.antt =====
-- llmsh/src/parsing.rs, `parse`: what a terminal shows when hidden identifiers come in pieces.
use mathlib.Core.Path.{subst}
use llmsh.Base.{
  ℕ, List, ◌++◌, Bytes, ◌≡◌, sym, ap, ◌∙◌, arith, Eq, HashMap, ok, length, length-append, take,
  drop, take-all, take-append_le,
}
use llmsh.Parsing.{StepResults, Transition, BufferParser, parse}
use llmsh.Parsing.Reference.{Reader, Runs, done, more}
use llmsh.Parsing.Streams.{IsClear-feed}
use llmsh.Parsing.Parses.{IsValid, IsClear-Sim}
use llmsh.Parsing.Total.{parse-Runs}
use llmsh.Parsing.Visible.{output}
use llmsh.Parsing.Screens.{write, AreWiped}
use llmsh.Parsing.Cleaned.{Cleans, Runs-Cleans}

module _ {S E1 E2 : Type 0} ⦃e : Eq S⦄ where
  -- A reader that ran to the end has seen all of its text.
  Runs-ends :
      {state_map : HashMap S (List (Transition S E1))} {echo_events : HashMap S E2} {r : Reader S}
      {results : List (StepResults E1 E2)} {r' : Reader S}
      → Runs state_map echo_events r results r'
      → r'.seen ≡ length r'.text
  Runs-ends (done read) = read
  Runs-ends (more h runs) = Runs-ends runs

  pub seen-read :
      (p : BufferParser S E1 E2) (v : IsValid p)
      → p.parsed_length ≡ length p.input_buffer
      → v.reader.seen ≡ length v.reader.text
  seen-read p v read =
      ap (λ r. r.seen) v.sim.is_view
      ∙ omega (arith, length-append v.sim.dropped p.input_buffer)
      ∙ ap (λ r. length r.text) (sym v.sim.is_view)

  read-seen :
      (p : BufferParser S E1 E2) (v : IsValid p)
      → v.reader.seen ≡ length v.reader.text
      → p.parsed_length ≡ length p.input_buffer
  read-seen p v read =
      let e = ap (λ r. r.seen) v.sim.is_view in
      let e' = ap (λ r. length r.text) v.sim.is_view in
      omega (arith, length-append v.sim.dropped p.input_buffer)

  -- For any terminal: if what a valid parser had shown past the end of the first match is wiped, byte for
  -- byte, by deletions, a call of `parse` returns, and the screen that showed all the text since the last
  -- transition comes to show the text, with the new input, in which no hidden identifier was ever written.
  pub parse-Cleans :
      (p : BufferParser S E1 E2) (input : Bytes) (v : IsValid p) {Screen : Type 0}
      (put : ℕ → Screen → Screen) (s : Screen) {end : ℕ} {shown rest : Bytes} {last : S}
      → p.parsed_length ≡ length p.input_buffer
      → Cleans p.state_map (v.reader.text ++ input) v.reader.state end shown rest last
      → AreWiped put (drop end v.reader.text) (write put (take end (v.reader.text ++ input)) s)
      → (results : List (StepResults E1 E2)) × (p' : BufferParser S E1 E2) × (v' : IsValid p')
        × (parse p input ≡ ok (results, p'))
        × (write put (output results) (write put v.reader.text s)
            ≡ write put rest (write put shown s))
        × (v'.reader.text ≡ rest)
        × (v'.reader.state ≡ last)
        × (p'.parsed_length ≡ length p'.input_buffer)
        × (p'.state_map ≡ p.state_map)
        × (p'.echo_events ≡ p.echo_events)
  parse-Cleans p input v put s {end} read cleaning are =
      let r = v.reader in
      let a = parse-Runs p r input v.configured v.sim in
      let v' : IsValid a.p' = record { configured = a.configured; reader = a.r'; sim = a.sim } in
      let seen = seen-read p v read in
      let clear =
        IsClear-feed p.state_map p.echo_events v.configured.nonempty r input
          (IsClear-Sim p r v.configured v.sim) in
      let front : take r.seen (r.text ++ input) ≡ r.text =
        take-append_le r.seen r.text input (omega arith) ∙ take-all r.seen r.text (omega arith) in
      let (after, text_is, state_is) =
        Runs-Cleans p.state_map p.echo_events v.configured.nonempty put s a.runs clear cleaning (
          subst (λ t. AreWiped put (drop end t) (write put (take end (r.text ++ input)) s))
            (sym front) are) in
      (
        a.results,
        a.p',
        v',
        a.parses,
        ap (λ t. write put (output a.results) (write put t s)) (sym front) ∙ after,
        text_is,
        state_is,
        read-seen a.p' v' (Runs-ends a.runs),
        sym a.same.state_map,
        sym a.same.echo_events,
      )
