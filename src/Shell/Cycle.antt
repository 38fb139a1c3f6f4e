-- ===== src/Shell/Cycle.antt =====
-- shell.rs, `BashParser`: what a command and the next prompt do to the parser's states.
use llmsh.Base.{
  List, [], ◌∷◌, ◌++◌, Bool, true, false, Bytes, All-get_elem?, append-nil, get, ok, length, drop,
  drop-append_add, ◌≡◌, refl, sym, ap, ◌∙◌, arith,
}
use mathlib.Core.Path.{subst, subst₃}
use llmsh.Outside.{ShellOutputType, header, output}
use llmsh.Parsing.{StepResults, parse}
use llmsh.Parsing.Leftmost.{NoMatch, IsLeftmost, IsNonEmpty}
use llmsh.Parsing.Chunks.{changes}
use llmsh.Parsing.Leads.{Leads, rests, leads, parse-Leads}
use llmsh.Shell.Bash.{
  BashState, idle, cmd_input, BashParser, bash_state_eq, input_end, output_end, make_string_id,
  shell_prompt_input_start, transitions,
}
use llmsh.Shell.Sessions.{AreMarkers}
use llmsh.Parsing.Search.{At-bounds}
use llmsh.Shell.Output.{IsBash}

-- The shell's sign, as the parser looks for it.
abbrev pub sign : Bytes
sign = make_string_id shell_prompt_input_start

drop-length : (xs ys : Bytes) → drop (length xs) (xs ++ ys) ≡ ys
drop-length [] ys = refl
drop-length (x ∷ xs) ys = drop-length xs ys

module _ (m n : Bytes) where
  -- What bash prints: the rest of a command's output, its end, and a prompt with the sign.
  abbrev pub printed : Bytes → Bytes → Bytes
  printed out prompt = out ++ (output_end m n ++ (prompt ++ sign))

  -- No marker stands before the one at the end of the output, and no sign before the one of the prompt.
  pub record IsPrompted (out prompt : Bytes) : Type 0 where
    pub at_end :
        IsLeftmost (input_end m n ∷ output_end m n ∷ []) (printed out prompt) 1 (length out)
    pub at_sign : IsLeftmost (sign ∷ []) (prompt ++ sign) 0 (length prompt)

  no_end : AreMarkers m n → NoMatch (input_end m n ∷ output_end m n ∷ []) []
  no_end (a, _, b, _) k id listed j at =
      let pos =
        All-get_elem? IsNonEmpty (input_end m n ∷ output_end m n ∷ []) k (a, (b, tt)) listed in
      let le = At-bounds id j [] pos at in omega arith

  prompted-Leads :
      (out prompt : Bytes)
      → AreMarkers m n
      → IsPrompted out prompt
      → Leads
          (transitions m n)
          (printed out prompt)
          BashState.output
          (output ∷ header ∷ [])
          []
          cmd_input
  unfolding transitions get
  prompted-Leads out prompt are is =
      leads _ 1 (length out) (output_end m n) false idle output (header ∷ []) [] cmd_input refl refl
        is.at_end
        (subst (λ t. Leads (transitions m n) t idle (header ∷ []) [] cmd_input)
          (sym (
            drop-append_add out _ (length (output_end m n))
            ∙ drop-length (output_end m n) (prompt ++ sign)))
          (leads _ 0 (length prompt) sign true cmd_input header [] [] cmd_input refl refl is.at_sign
            (subst (λ t. Leads (transitions m n) t cmd_input [] [] cmd_input)
              (sym (
                drop-append_add prompt sign (length sign)
                ∙ ap (drop (length sign)) (sym (append-nil sign))
                ∙ drop-length sign []))
              (rests _ refl (no_end are)))))

  -- With markers of 1 to 127 bytes, when a parser that waits for the end of a command's output has been given,
  -- in whatever pieces since its last transition and with this input in the end, the rest of that output,
  -- the output's marker and a prompt with the shell's sign, with no marker and no sign before these,
  -- `parse` returns and reports the end of the output and the prompt, in this order and nothing else,
  -- and the parser is left in the state in which a command is typed.
  pub parse-prompt :
      (q : BashParser) (bytes out prompt : Bytes)
      → AreMarkers m n
      → (is : IsBash m n q) → q.state ≡ BashState.output
      → is.valid.reader.text ++ bytes ≡ printed out prompt
      → IsPrompted out prompt
      → (results : List (StepResults ShellOutputType Bool)) × (q' : BashParser) × (parse q bytes
          ≡ ok (results, q'))
        × (changes results ≡ output ∷ header ∷ [])
        × (q'.state ≡ cmd_input)
  parse-prompt q bytes out prompt are is at_output given prompted =
      let same : is.valid.reader.state ≡ BashState.output =
        ap (λ r. r.state) is.valid.sim.is_view ∙ at_output in
      parse-Leads q bytes is.valid (
        subst₃ (λ maps text state. Leads maps text state (output ∷ header ∷ []) [] cmd_input)
          (sym is.state_map) (sym given) (sym same) (prompted-Leads out prompt are prompted))
