-- ===== src/Examples/Runs.antt =====
-- The whole program at concrete inputs, in both of its processes.
use llmsh.Base.{
  [], ◌∷◌, List, some, Bool, codes, ok, err, hermit_dead, inl, inr, ◌≡◌, ◌≢◌, refl, sym, ap, arith,
  bytes_eq,
}
use llmsh.Outside.{History, answer, set_attributes}
use llmsh.Messages.{init_client, alive_msg, alive_resp, hermitd_endpoint, hermitd_api_version}
use llmsh.Messages.Protocol.{exchanged}
use llmsh.Messages.Closing.{Closes}
use llmsh.Messages.Setup.{connected, init_client-ok}
use llmsh.Outside.{create_socket, connect, set_linger, received, setup_success, Request}
use llmsh.Parsing.{StepResults, parse}
use llmsh.Parsing.Chunks.{changes}
use llmsh.Parsing
use llmsh.Text.{Text, into_bytes}
use llmsh.Shell.Bash
use llmsh.Shell.Bash.{BashParser, bash_state_eq, make_string_id}
use llmsh.Outside.{ShellOutputType}
use llmsh.Shell.Output.{IsCoupled}
use llmsh.Shell.Sessions.{unhandled}
use llmsh.Shell.Proxy.{ShellProxy}
use llmsh.Shell.Start.{input_marker, output_marker, create_bash_proxy, file_name}
use llmsh.Parsing.Pieces.{joined, parse_pieces}
use llmsh.Shell.Launched.{get_shell-IsCoupled, get_shell-parse}
use llmsh.Pty.Terminals.{attributes}
use llmsh.Pty.Descriptors.{descriptors}
use llmsh.Main.{
  Progress, expected, settled, expect_answer, exited, replaced, crashed, run_parent, run_child,
  close_down, main,
}
use llmsh.Main.Parent.{Completed, told_user, run_parent-zero, close_down-exits}
use llmsh.Main.Calm.{main-safe}
use llmsh.Main.Child.{Executed, run_child-executes}
use llmsh.Examples.Launching.{
  platform, launching, chosen, is_chosen, are_uuids, cooked, at_first, reports, table, name,
}

abbrev made :
    (p : ShellProxy) × (create_bash_proxy chosen [] 5 ≡ ok p)
    × IsCoupled (input_marker chosen) (output_marker chosen) p
made =
    get_shell-IsCoupled platform launching are_uuids (some (codes "/bin/bash")) [] _ [] chosen 5
      is_chosen

get_shell-parse_example :
    (xs zs : List (StepResults ShellOutputType Bool)) × (p1 p2 : BashParser) × (parse_pieces
        made.0.output_parser
        (codes "0123")
        (codes "45" ∷ codes "67" ∷ [])
      ≡ ok (xs, p1))
    × (parse made.0.output_parser (joined (codes "0123") (codes "45" ∷ codes "67" ∷ []))
        ≡ ok (zs, p2))
    × (changes xs ≡ changes zs)
    × (p1.state ≡ p2.state)
get_shell-parse_example =
    get_shell-parse platform launching are_uuids (some (codes "/bin/bash")) [] _ [] chosen 5 made.0
      made.0 (codes "0123") (codes "45" ∷ codes "67" ∷ []) is_chosen made.1 unhandled

close_down-exits_example :
    let r = close_down platform launching 5 cooked (err hermit_dead) [] in
    (h_closed : History) × (r.0 ≡ exited 1)
    × Closes launching 5 (told_user platform launching (err hermit_dead) []) h_closed
    × (r.1 ≡ set_attributes 0 cooked ∷ h_closed)
    × (attributes platform at_first r.1 0 ≡ cooked)
close_down-exits_example =
    close_down-exits platform launching at_first 5 cooked (err hermit_dead) [] refl (λ h. refl)
      (λ h. refl)

not_csh : file_name (codes "/bin/bash") ≢ some (codes "csh")
unfolding file_name
not_csh e = cc

main-safe_example : (main platform launching 2 (some (codes "/bin/bash")) []).0 ≢ crashed
main-safe_example =
    main-safe platform launching (λ h. refl) (λ h. (inl refl, (inr refl, tt))) are_uuids
      (λ h. (_, refl)) (λ h. refl) (λ h. refl) 2 (codes "/bin/bash") [] not_csh (λ h. (50, refl))

abbrev run : Progress (Unit {0}) × History
run = run_parent platform launching 1 chosen 3 []

run_is : run.0 ≡ exited 0
unfolding run_parent expected bytes_eq settled Bash.new Parsing.new make_string_id into_bytes
run_is = refl

run_parent-zero_example :
    (ran : Completed platform launching 1 chosen 3 [] run.1) × (attributes platform at_first run.1 0
      ≡ attributes platform at_first ran.h_polled 0)
run_parent-zero_example =
    run_parent-zero platform launching at_first 1 chosen 3 [] run.1
      (λ h. ap answer (sym (reports h))) (λ i. (run_is i, run.1))

abbrev child_run : Progress (Unit {0}) × History
child_run = run_child platform launching chosen name []

child_is : child_run.0 ≡ replaced
unfolding run_child expected settled expect_answer
child_is = refl

run_child-executes_example :
    Executed platform launching chosen name [] child_run.1
    × (descriptors platform table child_run.1 2 ≡ some name)
run_child-executes_example =
    run_child-executes platform launching chosen name [] child_run.1 table 4 2 (λ h. refl) refl
      (omega arith) (omega arith) (λ i. (child_is i, child_run.1))

abbrev after_setup : History
after_setup = exchanged (codes "u") 1000 (exchanged alive_msg 500 (connected launching []))

client_is : init_client launching [] ≡ (ok (5, codes "hi"), after_setup)
unfolding init_client bytes_eq
client_is = refl

init_client-ok_example :
    (user json answer_json : Text) × (launching.on_create_socket (create_socket ∷ []) ≡ answer tt)
    × (launching.on_connect (connect hermitd_endpoint ∷ set_linger 1000 ∷ create_socket ∷ [])
        ≡ answer tt)
    × (launching.on_read_env (connected launching []) ≡ answer user)
    × (launching.on_recv (exchanged alive_msg 500 (connected launching [])) ≡ received alive_resp)
    × (launching.to_json (Request.setup user hermitd_api_version) ≡ answer json)
    × (after_setup ≡ exchanged json 1000 (exchanged alive_msg 500 (connected launching [])))
    × (launching.on_recv after_setup ≡ received answer_json)
    × (launching.from_json answer_json ≡ answer (setup_success 5 (codes "hi")))
init_client-ok_example = init_client-ok launching [] after_setup (5, codes "hi") client_is
