-- ===== src/Examples/Rounds.antt =====
-- What a round of the loop shows and saves, and when the loop ends, at concrete inputs.
use llmsh.Base.{bytes_eq, [], ◌∷◌, List, Bool, codes, ok, exhausted, ◌≡◌, refl}
use llmsh.Outside.{Outside, pty_eio, events, other_status, poll, wait_child}
use llmsh.Shell.Bash.{ParsedOutput, BashParser, parse_output}
use llmsh.Shell.Proxy.{ShellProxy, handle_output}
use llmsh.Shell.Contexts.{Shows, steps, contexts, put_aside}
use llmsh.Shell.Shown.{handle_output-Shows}
use llmsh.Messages.{save_context}
use llmsh.Shell.Output.{IsCoupled, handle_output-works}
use llmsh.Shell.Coupling.{IsWorking}
use llmsh.MainLoop.{safe_handle_terminal}
use llmsh.MainLoop.Exits.{
  handle_output-true, safe_handle_terminal-ends, safe_handle_terminal-closed,
}
use llmsh.Examples.Witnesses.{in_marker, out_marker, outside, created, proxy, printed}

handle_output-Shows_example :
    (outs : List ParsedOutput) × (q : BashParser) × (parse_output proxy.output_parser (codes "<on>")
      ≡ ok (outs, q))
    × Shows outside proxy
        (steps outs)
        (contexts proxy.output_aggregation outs)
        (put_aside proxy.output_aggregation outs)
        printed.1
handle_output-Shows_example =
    handle_output-Shows outside proxy printed.1 printed.0 b'<' (codes "on>") refl printed.2

safe_handle_terminal-closed_example :
    (safe_handle_terminal
      (record outside { on_poll = λ h. events (0 ∷ []); on_read_pty = λ h. pty_eio })
      1000
      proxy).0
    ≡ exhausted
safe_handle_terminal-closed_example =
    safe_handle_terminal-closed
      (record outside { on_poll = λ h. events (0 ∷ []); on_read_pty = λ h. pty_eio }) (λ h. refl)
      (λ h. refl) 1000 proxy

-- The same shell has ended by the time of the first poll.
abbrev ended : Outside
ended = record outside { on_wait = λ h. other_status }

abbrev polled : ShellProxy
polled = record proxy { history = poll ∷ proxy.history }

abbrev polled_IsCoupled : IsCoupled in_marker out_marker polled
polled_IsCoupled =
    let (bash, ((is, same), clear)) = created.2 in
    (bash, ((record { prompt = is.prompt; at_rest = is.at_rest }, same), clear))

ended-IsWorking : IsWorking ended
unfolding save_context bytes_eq
ended-IsWorking = record {
  writes = λ h. refl;
  saves = λ session_id context_type context h. refl;
  reads = λ h e r. cc;
}

abbrev last :
    (more : Bool) × (p' : ShellProxy) × (handle_output ended polled ≡ (ok more, p'))
    × IsCoupled in_marker out_marker p'
last = handle_output-works in_marker out_marker ended polled polled_IsCoupled ended-IsWorking

safe_handle_terminal-ends_example :
    safe_handle_terminal ended 1 proxy
    ≡ (ok tt, record last.1 { history = wait_child ∷ last.1.history })
safe_handle_terminal-ends_example =
    safe_handle_terminal-ends ended 0 (1 ∷ []) proxy last.1 refl
      (handle_output-true ended polled last.1 last.0 b'<' (codes "on>") refl last.2) refl
