-- ===== src/Handler/Commit.antt =====
-- armatureanalytics/stateless_http_handler.go: what the first header that is sent carries.
use mcp_analytics_go.Prelude.{
  ℕ, ◌≡◌, refl, Bool, true, false, not, ◌&&◌, Option, none, some, List, [], ◌∷◌, ◌++◌, Text,
  is_empty, if◌then◌else◌, if_cases,
}
use mcp_analytics_go.Json.{Value}
use mcp_analytics_go.Session.{workflow_run_id}
use mcp_analytics_go.Session.Resolve.{StatelessHttpSession}
use mcp_analytics_go.Handler.{
  Call, sent_header, sent_body, flushed, Writer, new_writer, is_success, commit_header, log_call,
  write_header, ensure_header, write, flush, succeeded, Act, set_header, act_header, act_write,
  act_flush, act, serve, attach_late, session_init_client_info, Request, serve_session,
}

abbrev pub first_call : List Call → Option Call
first_call [] = none
first_call (call ∷ calls) = some call

-- The status that a handler commits, with its own Mcp-Session-Id header at that time, starting from
-- one; `none` if it writes nothing.
abbrev pub committed : Bool → List Act → Text → Option (ℕ × Text)
committed flusher [] header = none
committed flusher (set_header id ∷ acts) header = committed flusher acts id
committed flusher (act_header status ∷ acts) header = some (status, header)
committed flusher (act_write p ∷ acts) header = some (200, header)
committed true (act_flush ∷ acts) header = some (200, header)
committed false (act_flush ∷ acts) header = committed false acts header

-- What is then sent: the session's id on a success to which the handler has given none.
abbrev pub attached : Text → Option (ℕ × Text) → Option Call
attached id none = none
attached id (some (status, header)) =
    some (sent_header status (if is_success status && is_empty header then id else header))

abbrev pub commits_success : Option (ℕ × Text) → Bool
commits_success none = true
commits_success (some (status, header)) = is_success status

-- A header has been sent, and this was the first call.
record HasSent (call : Call) (status : ℕ) (w : Writer) : Type 0 where
  wrote : w.wrote_header ≡ true
  with_status : w.status ≡ status
  first : first_call w.calls ≡ some call

-- What the writer shows, against what the handler commits.
record Shows (id : Text) (c : Option (ℕ × Text)) (w : Writer) : Type 0 where
  first : first_call w.calls ≡ attached id c
  success : succeeded w ≡ commits_success c

first_call-append :
    (call : Call) (calls more : List Call)
    → first_call calls ≡ some call
    → first_call (calls ++ more) ≡ some call
first_call-append call [] more h = cc
first_call-append call (c ∷ calls) more h = h

log_call-HasSent :
    (call more : Call) (status : ℕ) (w : Writer)
    → HasSent call status w
    → HasSent call status (log_call more w)
log_call-HasSent call more status w v = record {
  wrote = v.wrote;
  with_status = v.with_status;
  first = first_call-append call w.calls (more ∷ []) v.first;
}

pub if_not-true {ℓ} : {A : Type ℓ} (x y : A) (b : Bool) → b ≡ true → (if not b then x else y) ≡ y
if_not-true x y true h = refl
if_not-true x y false h = cc

commit_header-wrote : (status : ℕ) (w : Writer) → w.wrote_header ≡ true → commit_header status w ≡ w
unfolding commit_header
commit_header-wrote status w h = if_not-true _ w w.wrote_header h

ensure_header-wrote : (w : Writer) → w.wrote_header ≡ true → ensure_header w ≡ w
unfolding ensure_header
ensure_header-wrote w h = if_not-true _ w w.wrote_header h

act-HasSent :
    (flusher : Bool) (a : Act) (call : Call) (status : ℕ) (w : Writer)
    → HasSent call status w
    → HasSent call status (act flusher a w)
unfolding act write_header write flush
act-HasSent flusher (set_header id) call status w v = record {
  wrote = v.wrote;
  with_status = v.with_status;
  first = v.first;
}
act-HasSent flusher (act_header s) call status w v =
    rw (commit_header-wrote s w v.wrote) (log_call-HasSent call (sent_header s w.header) status w v)
act-HasSent flusher (act_write p) call status w v =
    rw (ensure_header-wrote w v.wrote) (log_call-HasSent call (sent_body p) status w v)
act-HasSent true act_flush call status w v =
    rw (ensure_header-wrote w v.wrote) (log_call-HasSent call flushed status w v)
act-HasSent false act_flush call status w v = v

serve-HasSent :
    (flusher : Bool) (acts : List Act) (call : Call) (status : ℕ) (w : Writer)
    → HasSent call status w
    → HasSent call status (serve flusher acts w)
unfolding serve
serve-HasSent flusher [] call status w v = v
serve-HasSent flusher (a ∷ acts) call status w v =
    serve-HasSent flusher acts call status (act flusher a w) (act-HasSent flusher a call status w v)

HasSent-Shows :
    (id header : Text) (status : ℕ) (w : Writer)
    → HasSent
        (sent_header status (if is_success status && is_empty header then id else header))
        status
        w
    → Shows id (some (status, header)) w
unfolding succeeded
HasSent-Shows id header status w v = record {
  first = v.first;
  success = rw (v.wrote, v.with_status) refl;
}

abbrev fresh : Text → Text → Writer
fresh id header = record (new_writer id) { header = header }

write_header-HasSent :
    (id header : Text) (status : ℕ)
    → HasSent
        (sent_header status (if is_success status && is_empty header then id else header))
        status
        (write_header status (fresh id header))
unfolding write_header commit_header
write_header-HasSent id header status = record { wrote = refl; with_status = refl; first = refl }

serve-Shows :
    (flusher : Bool) (acts : List Act) (id header : Text)
    → Shows id (committed flusher acts header) (serve flusher acts (fresh id header))
unfolding serve act succeeded write flush ensure_header
serve-Shows flusher [] id header = record { first = refl; success = refl }
serve-Shows flusher (set_header id' ∷ acts) id header = serve-Shows flusher acts id id'
serve-Shows flusher (act_header status ∷ acts) id header =
    HasSent-Shows id header status _
      (serve-HasSent flusher acts _ status _ (write_header-HasSent id header status))
serve-Shows flusher (act_write p ∷ acts) id header = HasSent-Shows id header 200 _ (
    serve-HasSent flusher acts _ 200 _
      (log_call-HasSent _ (sent_body p) 200 _ (write_header-HasSent id header 200)))
serve-Shows true (act_flush ∷ acts) id header = HasSent-Shows id header 200 _ (
    serve-HasSent true acts _ 200 _
      (log_call-HasSent _ flushed 200 _ (write_header-HasSent id header 200)))
serve-Shows false (act_flush ∷ acts) id header = serve-Shows false acts id header

attach_late-Shows :
    (id : Text) (c : Option (ℕ × Text)) (w : Writer) → Shows id c w → Shows id c (attach_late w)
unfolding attach_late succeeded
attach_late-Shows id c w v =
    if_cases (Shows id c) (not w.wrote_header && is_empty w.header)
      (λ _. record { first = v.first; success = v.success }) (λ _. v)

-- Whatever the handler does with its writer, the first call that reaches the client's writer has
-- the status the handler commits, and the session's id as Mcp-Session-Id exactly if that
-- is a success and the handler has set no id of its own by then. A session_init is recorded
-- exactly if the recorder is there, the request initializes the session, and the handler
-- commits a success or writes nothing; it is for the id that the handler was handed.
pub serve_session-first :
    (flusher has_recorder : Bool) (next : Text → List Act) (req : Request)
    (session : StatelessHttpSession) (body : Option Value)
    → (first_call (serve_session flusher has_recorder next req session body).calls
        ≡ attached session.session_id (committed flusher (next session.session_id) []))
      × ((serve_session flusher has_recorder next req session body).recorded ≡ (
          if has_recorder
            && (session.is_initialize
                && commits_success (committed flusher (next session.session_id) []))
          then some (record {
            session_id = (serve_session flusher has_recorder next req session body).handed;
            client_info = session_init_client_info body;
            workflow_run_id = workflow_run_id req.workflow_run;
          })
          else none))
unfolding serve_session
serve_session-first flusher has_recorder next req session body =
    let shown =
      attach_late-Shows session.session_id _ _
        (serve-Shows flusher (next session.session_id) session.session_id []) in
    (shown.first, rw shown.success refl)
