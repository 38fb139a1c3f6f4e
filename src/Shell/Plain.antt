-- ===== src/Shell/Plain.antt =====
-- llmsh/src/shell.rs, `handle_output`: the text of a context, and the request that carries it.
use llmsh.Base.{Option, All, ok, ◌≡◌, sym, ap, ◌∙◌}
use llmsh.Text.{Text, into_bytes}
use llmsh.Text.Utf8.{IsScalar, from_utf8_lossy-into_bytes}
use llmsh.Effects.{bind-ok}
use llmsh.Ansi.{strip_ansi_escape_sequences}
use llmsh.Ansi.Bells.{IsPlain, strip-plain}
use llmsh.Outside.{
  Outside, History, answer, received, ShellOutputType, Request, Response, setup_success,
  command_response, error, success,
}
use llmsh.Messages.{alive_msg, alive_resp, send_msg, saved_of, save_context}
use llmsh.Messages.Protocol.{exchanged, send_msg-ok}
use llmsh.Shell.Proxy.{ShellProxy, context_of, send_context}
use llmsh.Shell.Showing.{with_history-ok}

module _ (o : Outside) where
  context_of-into_bytes :
      (text : Text) → All IsScalar text → All IsPlain text → context_of o (into_bytes text) ≡ text
  context_of-into_bytes text scalar plain =
      ap (strip_ansi_escape_sequences o.is_decimal) (from_utf8_lossy-into_bytes text scalar)
      ∙ strip-plain o.is_decimal text plain

  saved_of-history : (reply : Response) (h h' : History) → saved_of o reply h ≡ (ok tt, h') → h' ≡ h
  unfolding saved_of
  saved_of-history success h h' e = sym (ap (λ r. r.1) e)
  saved_of-history (setup_success session_id motd) h h' e = cc
  saved_of-history (command_response full_response commands) h h' e = cc
  saved_of-history (error status) h h' e = cc

  -- When the bytes of a context are the whole UTF-8 of characters without ESC and BEL, and sending it
  -- returned, then hermitd acknowledged that it is alive, and all that was sent besides is the JSON of
  -- the request that saves exactly these characters, for the session and of the type given.
  pub send_context-plain :
      (p p' : ShellProxy) (context_type : Option ShellOutputType) (text : Text)
      → All IsScalar text
      → All IsPlain text
      → send_context o context_type (into_bytes text) p ≡ (ok tt, p')
      → (json : Text) × (o.to_json (Request.save_context p.session_id context_type text)
          ≡ answer json)
        × (o.on_recv (exchanged alive_msg 500 p.history) ≡ received alive_resp)
        × (p'.history ≡ exchanged json 1000 (exchanged alive_msg 500 p.history))
  unfolding save_context
  send_context-plain p p' context_type text scalar plain e =
      let context = context_of o (into_bytes text) in
      let request = Request.save_context p.session_id context_type context in
      let same = context_of-into_bytes text scalar plain in
      let (h, saved, is) =
        with_history-ok (save_context o p.session_id context_type context) p p' e in
      let (reply, h1, sent, e1) = bind-ok (send_msg o request 1000) (saved_of o) p.history saved in
      let (json, _, encoded, acknowledged, at_h1, _, _) =
        send_msg-ok o request 1000 p.history h1 reply sent in
      (
        json,
        ap (λ t. o.to_json (Request.save_context p.session_id context_type t)) (sym same) ∙ encoded,
        acknowledged,
        ap (λ (p : ShellProxy). p.history) (sym is) ∙ saved_of-history reply h1 h e1 ∙ at_h1,
      )
