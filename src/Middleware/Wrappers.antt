-- ===== src/Middleware/Wrappers.antt =====
-- internal/middleware: cors.go, rate_limit.go, recovery.go and request_id.go.
use go_ordersvc.Prelude.{String, some, str_eq, if◌then◌else◌}
use go_ordersvc.Middleware.Writer.{ResponseWriter, Handler, Request, Ended, returns, panics}

module _ {B W : Type 0} where
  abbrev pub allow_all : ResponseWriter B W → W → W
  allow_all writer w =
      let w₁ = writer.set_header "Access-Control-Allow-Origin" "*" w in
      let w₂ =
        writer.set_header "Access-Control-Allow-Methods" "GET, POST, PUT, DELETE, OPTIONS" w₁ in
      writer.set_header "Access-Control-Allow-Headers" "Content-Type, Authorization" w₂

-- With `uuid.New().String()`.
abbrev pub pick_id : {S : Type 0} → (S → String × S) → Request → S → String × S
pick_id new_uuid r s =
    let id = r.header "X-Request-Id" in if str_eq id "" then new_uuid s else (id, s)

module _ {B S : Type 0} where
  unfoldable pub cors : Handler B S → Handler B S
  cors next W writer r w s =
      let w' = allow_all writer w in
      if str_eq r.method "OPTIONS"
      then (returns, writer.write_header 200 w', s)
      else next W writer r w' s

  -- A stub, as the source has it.
  unfoldable pub rate_limit : Handler B S → Handler B S
  rate_limit next W writer r w s = next W writer r w s

  -- The deferred function, which recovers from a panic of the handler.
  abbrev pub recover : {W : Type 0} → ResponseWriter B W → Ended × W × S → Ended × W × S
  recover writer (returns, w, s) = (returns, w, s)
  recover writer (panics _, w, s) = (returns, writer.write_header 500 w, s)

  unfoldable pub recovery : Handler B S → Handler B S
  recovery next W writer r w s = recover writer (next W writer r w s)

  unfoldable pub request_id : (S → String × S) → Handler B S → Handler B S
  request_id new_uuid next W writer r w s =
      let (id, s') = pick_id new_uuid r s in
      next W writer (record r { request_id = some id }) (writer.set_header "X-Request-Id" id w) s'
