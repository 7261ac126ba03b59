-- ===== src/Middleware/Logged.antt =====
-- The status that is logged is the status that the client gets.
use go_ordersvc.Prelude.{
  ℕ, ◌-◌, Bool, true, false, not, ◌&&◌, String, Option, none, some, List, [], ◌∷◌, ◌++◌, ◌≡◌, refl,
  ◌∙◌, sym, ap, arith,
}
use go_ordersvc.Middleware.Writer.{
  ResponseWriter, WriterCall, sets_header, writes_header, writes, perform, perform_all, Response,
  fresh, is_final, net_http, client_status, Request, Ended, returns, panics, Handler, Calls,
  handler, send, write_piece,
}
use go_ordersvc.Middleware.Wrappers.{recover, recovery}
use go_ordersvc.Middleware.Logging.{
  Captured, LogLine, wrap_response_writer, response_writer, log_request, logging,
}

module _ {B : Type 0} where
  -- The first `WriteHeader`, if there is one, has a final code and comes before any `Write`. The
  -- Boolean says that a piece of the body has been written.
  abbrev pub header_first : Bool → List (WriterCall B) → Bool
  header_first begun [] = true
  header_first begun (sets_header key value ∷ calls) = header_first begun calls
  header_first begun (writes_header code ∷ calls) = not begun && is_final code
  header_first begun (writes piece ∷ calls) = header_first true calls

  abbrev captured_writer : ResponseWriter B (Captured (Response B))
  captured_writer = response_writer net_http

  send_sent : (code status : ℕ) (r : Response B) → r.status ≡ some status → send code r.status r ≡ r
  send_sent code status r h = rw h refl

  write_piece-status :
      (piece : B) (status : Option ℕ) (r : Response B)
      → (write_piece piece status r).status ≡ r.status
  write_piece-status piece none r = refl
  write_piece-status piece (some code) r = ground arith

  write-sent :
      (piece : B) (status : ℕ) (r : Response B)
      → r.status ≡ some status
      → (net_http.write piece r).status ≡ some status
  write-sent piece status r sent =
      write_piece-status piece (send 200 r.status r).status (send 200 r.status r)
      ∙ ap (λ (t : Response B). t.status) (send_sent 200 status r sent)
      ∙ sent

  write-begun :
      (piece : B) (r : Response B) → r.status ≡ none → (net_http.write piece r).status ≡ some 200
  write-begun piece r unsent =
      write_piece-status piece (send 200 r.status r).status (send 200 r.status r) ∙ rw unsent refl

  -- Once the header has gone out through the wrapper, both ignore every later code.
  pub after_header :
      (calls : List (WriterCall B)) (r : Response B) (status : ℕ)
      → r.status ≡ some status
      → (perform_all captured_writer calls
            (record { inner = r; status = status; wrote_header = true })
          ≡ record { inner = perform_all net_http calls r; status = status; wrote_header = true })
        × (client_status (perform_all net_http calls r) ≡ status)
  after_header [] r status sent = (refl, rw sent refl)
  after_header (sets_header key value ∷ calls) r status sent =
      after_header calls (record r { header = (key, value) ∷ r.header }) status sent
  after_header (writes_header code ∷ calls) r status sent =
      rw (send_sent code status r sent) (after_header calls r status sent)
  after_header (writes piece ∷ calls) r status sent =
      after_header calls (net_http.write piece r) status (write-sent piece status r sent)

  -- What the wrapper kept is what the client gets.
  abbrev Kept : List (WriterCall B) → Response B → Type 0
  Kept calls r =
      let kept =
        perform_all captured_writer calls
          (record { inner = r; status = 200; wrote_header = false }) in
      (kept.inner ≡ perform_all net_http calls r)
      × (kept.status ≡ client_status (perform_all net_http calls r))

  after_body :
      (calls : List (WriterCall B)) (r : Response B)
      → header_first true calls ≡ true
      → r.status ≡ some 200
      → Kept calls r
  after_body [] r ordered begun = (refl, rw begun refl)
  after_body (sets_header key value ∷ calls) r ordered begun =
      after_body calls (record r { header = (key, value) ∷ r.header }) ordered begun
  after_body (writes_header code ∷ calls) r ordered begun = cc
  after_body (writes piece ∷ calls) r ordered begun =
      after_body calls (net_http.write piece r) ordered (write-sent piece 200 r begun)

  pub send-final :
      (code : ℕ) (r : Response B)
      → is_final code ≡ true
      → r.status ≡ none
      → (send code r.status r).status ≡ some code
  send-final code r final unsent = rw (unsent, final) refl

  pub before_header :
      (calls : List (WriterCall B)) (r : Response B)
      → header_first false calls ≡ true
      → r.status ≡ none
      → Kept calls r
  before_header [] r ordered unsent = (refl, rw unsent refl)
  before_header (sets_header key value ∷ calls) r ordered unsent =
      before_header calls (record r { header = (key, value) ∷ r.header }) ordered unsent
  before_header (writes_header code ∷ calls) r ordered unsent =
      let (same, status) =
        after_header calls (send code r.status r) code (send-final code r ordered unsent) in
      (
        ap (λ (w : Captured (Response B)). w.inner) same,
        ap (λ (w : Captured (Response B)). w.status) same ∙ sym status,
      )
  before_header (writes piece ∷ calls) r ordered unsent =
      after_body calls (net_http.write piece r) ordered (write-begun piece r unsent)

  perform_all-++ :
      {W : Type 0} (writer : ResponseWriter B W) (calls more : List (WriterCall B)) (w : W)
      → perform_all writer (calls ++ more) w ≡ perform_all writer more (perform_all writer calls w)
  perform_all-++ writer [] more w = refl
  perform_all-++ writer (call ∷ calls) more w =
      perform_all-++ writer calls more (perform writer call w)

module _ {S : Type 0} (logger : LogLine → S → S) (now : S → ℕ × S) where
  -- What is logged of a request whose handler began and ended in the given states.
  abbrev pub logged : Request → ℕ → S → S → S
  logged r status s s' =
      logger
        (record {
          method = r.method;
          path = r.path;
          status = status;
          duration = (now s').0 - (now s).0;
          remote_addr = r.remote_addr;
          request_id = r.chi_request_id;
        })
        (now s').1

module _ {B S : Type 0} (logger : LogLine → S → S) (now : S → ℕ × S) where
  logging-returned :
      (next : Handler B S) (calls : List (WriterCall B)) (r : Request) (s s' : S)
      → next (Captured (Response B)) captured_writer r (wrap_response_writer fresh) (now s).1
        ≡ (returns, perform_all captured_writer calls (wrap_response_writer fresh), s')
      → header_first false calls ≡ true
      → logging logger now next (Response B) net_http r fresh s ≡ (
        returns,
        perform_all net_http calls fresh,
        logged logger now r (client_status (perform_all net_http calls fresh)) s s',
      )
  unfolding logging
  logging-returned next calls r s s' ran ordered =
      let (response, status) = before_header calls fresh ordered refl in
      ap (log_request logger now r (now s).0) ran ∙ rw (response, status) refl

  -- A request whose handler returns, with its first WriteHeader final and before any Write: the
  -- client gets what the handler writes, and one line is logged, with the status that the client
  -- gets.
  pub logging-status :
      (h : Calls B S) (r : Request) (s s' : S) (calls : List (WriterCall B))
      → h r (now s).1 ≡ (returns, calls, s')
      → header_first false calls ≡ true
      → logging logger now (handler h) (Response B) net_http r fresh s ≡ (
        returns,
        perform_all net_http calls fresh,
        logged logger now r (client_status (perform_all net_http calls fresh)) s s',
      )
  logging-status h r s s' calls ran ordered =
      logging-returned (handler h) calls r s s'
        (ap
          (λ (e : Ended × List (WriterCall B) × S).
            (e.0, perform_all captured_writer e.1 (wrap_response_writer fresh), e.2))
          ran)
        ordered

  recovery-panics :
      {W : Type 0} (writer : ResponseWriter B W) (h : Calls B S) (r : Request) (w : W) (s s' : S)
      (calls : List (WriterCall B)) (value : String)
      → h r s ≡ (panics value, calls, s')
      → recovery (handler h) W writer r w s
        ≡ (returns, perform_all writer (calls ++ writes_header 500 ∷ []) w, s')
  unfolding recovery
  recovery-panics writer h r w s s' calls value ran =
      ap
        (λ (e : Ended × List (WriterCall B) × S).
          recover writer (e.0, perform_all writer e.1 w, e.2))
        ran
      ∙ rw (perform_all-++ writer calls (writes_header 500 ∷ []) w) refl

  -- A request whose handler panics, behind Recovery and Logging, where the first WriteHeader, the
  -- one of Recovery included, is final and comes before any Write: the panic goes no further, one
  -- line is logged, and its status is the one that the client gets of what the handler wrote and
  -- the WriteHeader(500) after it.
  pub logging-recovery :
      (h : Calls B S) (r : Request) (s s' : S) (calls : List (WriterCall B)) (value : String)
      → h r (now s).1 ≡ (panics value, calls, s')
      → header_first false (calls ++ writes_header 500 ∷ []) ≡ true
      → let response = perform_all net_http (calls ++ writes_header 500 ∷ []) fresh in
        logging logger now (recovery (handler h)) (Response B) net_http r fresh s
        ≡ (returns, response, logged logger now r (client_status response) s s')
  logging-recovery h r s s' calls value ran ordered =
      logging-returned (recovery (handler h)) (calls ++ writes_header 500 ∷ []) r s s'
        (recovery-panics captured_writer h r (wrap_response_writer fresh) (now s).1 s' calls value
          ran)
        ordered
