-- ===== src/Ctl/Serve/Answer.antt =====
-- A request from its arrival at plugin/ctl/ipc/base_server.go to the answer of plugin/ctl/server.go.
use proxygw.Prelude.{
  List, Option-cases, Text, [], arith, bool_eq, delete, false, inl, inr, insert, lookup,
  lookup-insert_self, nat_eq, none, refl, some, sym, text_eq, true, ◌++◌, ◌∙◌, ◌∷◌, ◌≡◌, ◌≢◌,
}
use proxygw.Engine.{Engine}
use proxygw.Ipc.Method.{is_response}
use proxygw.Ipc.Packet.{Packet, Message, Codec, parse_raw_body}
use proxygw.Ipc.Server.{reading, read_at, read_with, dispatch_at, dispatch_with, send_req_at}
use proxygw.Ctl.Status.{Printer}
use proxygw.Ctl.Serve.{
  System, Action, selecting, handling, reads, dispatches, sends_req, takes_req, handles,
  response_to, take_req_at, serve_step, serve_steps,
}
use proxygw.Ctl.Serve.Progress.{handle_answers}

-- A server that waits for a packet, with Serve, and nothing under way.
pub record IsIdle {Options : Type 0} (sys : System Options) : Type 0 where
  pub loop_reads : sys.server.loop ≡ reading
  pub serve_selects : sys.serving ≡ selecting
  pub no_reqs : sys.server.reqs ≡ []

module _ (print : Printer) {Conn TC FC Options : Type 0} (e : Engine Conn TC FC)
    (codec : Codec Options) where
  serve_steps-append :
      (xs ys : List Action) (sys u : System Options)
      → serve_steps print e codec xs sys ≡ some u
      → serve_steps print e codec (xs ++ ys) sys ≡ serve_steps print e codec ys u
  unfolding serve_steps
  serve_steps-append [] ys sys u h = ground (arith)
  serve_steps-append (x ∷ xs) ys sys u h = elim (Option-cases (serve_step print e codec x sys)) [
    | inl n ↦ absurd (ground arith)
    | inr (v, k) ↦ rw (k, serve_steps) (serve_steps-append xs ys v u (ground arith))
  ]

  accept_request :
      (sys : System Options) (p : Packet Text) (q : Message Options)
      → IsIdle sys
      → p.id ≢ 0
      → is_response p.method_id ≡ false
      → parse_raw_body codec p ≡ some q
      → q.id ≡ p.id
      → lookup p.id sys.server.inbox ≡ none
      → serve_steps print e codec
          (reads (some p) ∷ dispatches true ∷ sends_req ∷ takes_req ∷ [])
          sys
        ≡ some (record {
          server = record (sys.server) { inbox = insert p.id tt sys.server.inbox };
          serving = handling q;
        })
  unfolding serve_steps serve_step read_at read_with dispatch_at dispatch_with send_req_at
      take_req_at
  accept_request sys p q idle n r k i f =
      ground (arith, idle.loop_reads, idle.serve_selects, idle.no_reqs)

  -- The same, up to the answer: the server is as before, but for the packet that it has sent.
  pub answer_request :
      (sys : System Options) (p : Packet Text) (q : Message Options)
      → IsIdle sys
      → p.id ≢ 0
      → is_response p.method_id ≡ false
      → parse_raw_body codec p ≡ some q
      → q.id ≡ p.id
      → lookup p.id sys.server.inbox ≡ none
      → serve_steps print e codec
          (reads (some p) ∷ dispatches true ∷ sends_req ∷ takes_req ∷ handles true ∷ [])
          sys
        ≡ some (record {
          server = record (sys.server) {
            sent = response_to print e q ∷ sys.server.sent;
            inbox = delete p.id (insert p.id tt sys.server.inbox);
          };
          serving = selecting;
        })
  unfolding serve_steps
  answer_request sys p q idle n r k i f =
      let taken : System Options = record {
        server = record (sys.server) { inbox = insert p.id tt sys.server.inbox };
        serving = handling q;
      } in
      let answers =
        handle_answers print e codec taken q refl (λ z. n (sym i ∙ z))
          (rw i (lookup-insert_self p.id tt sys.server.inbox)) (ground (arith, idle.loop_reads)) in
      serve_steps-append (reads (some p) ∷ dispatches true ∷ sends_req ∷ takes_req ∷ [])
        (handles true ∷ []) sys taken (accept_request sys p q idle n r k i f)
      ∙ ground (arith, answers, i)
