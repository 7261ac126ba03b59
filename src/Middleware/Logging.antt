-- ===== src/Middleware/Logging.antt =====
-- internal/middleware/logging.go.
use go_ordersvc.Prelude.{ℕ, ◌-◌, Bool, true, false, String, if◌then◌else◌}
use go_ordersvc.Middleware.Writer.{ResponseWriter, Handler, Request, Ended, returns, panics}

-- `responseWriter`, around the state of the writer that it embeds.
pub record Captured (W : Type 0) : Type 0 where
  pub inner : W
  pub status : ℕ
  pub wrote_header : Bool

-- What one line of the log says.
pub record LogLine : Type 0 where
  pub method : String
  pub path : String
  pub status : ℕ
  pub duration : ℕ
  pub remote_addr : String
  pub request_id : String

abbrev pub wrap_response_writer : {W : Type 0} → W → Captured W
wrap_response_writer w = record { inner = w; status = 200; wrote_header = false }

module _ {B W : Type 0} where
  -- `WriteHeader`
  abbrev pub capture : ResponseWriter B W → ℕ → Captured W → Captured W
  capture writer code w =
      if w.wrote_header
      then w
      else record { inner = writer.write_header code w.inner; status = code; wrote_header = true }

  -- `Header` and `Write` are those of the embedded writer.
  abbrev pub response_writer : ResponseWriter B W → ResponseWriter B (Captured W)
  response_writer writer = record {
    set_header = λ key value w. record w { inner = writer.set_header key value w.inner };
    write_header = capture writer;
    write = λ b w. record w { inner = writer.write b w.inner };
  }

-- With the logger and the clock of the process.
module _ {S : Type 0} (logger : LogLine → S → S) (now : S → ℕ × S) where
  -- What follows `next.ServeHTTP`, which a panic passes by.
  abbrev pub log_request : {W : Type 0} → Request → ℕ → Ended × Captured W × S → Ended × W × S
  log_request r start (panics e, wrapped, s) = (panics e, wrapped.inner, s)
  log_request r start (returns, wrapped, s) =
      let (end, s') = now s in
      (
        returns,
        wrapped.inner,
        logger
            (record {
              method = r.method;
              path = r.path;
              status = wrapped.status;
              duration = end - start;
              remote_addr = r.remote_addr;
              request_id = r.chi_request_id;
            })
            s',
      )

module _ {B S : Type 0} (logger : LogLine → S → S) (now : S → ℕ × S) where
  unfoldable pub logging : Handler B S → Handler B S
  logging next W writer r w s =
      let (start, s') = now s in
      log_request logger now r start
        (next (Captured W) (response_writer writer) r (wrap_response_writer w) s')
