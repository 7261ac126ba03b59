-- ===== src/Middleware/Writer.antt =====
-- What the middleware uses of net/http: handlers, requests, and the writer of a response.
use go_ordersvc.Prelude.{
  ℕ, Bool, ◌||◌, not, String, Option, none, some, List, [], ◌∷◌, ◌++◌, if◌then◌else◌, ltb, ◌==◌,
}

-- `http.ResponseWriter` over a state `W`: `Header().Set`, `WriteHeader` and `Write` of a piece of
-- the body.
pub record ResponseWriter (B W : Type 0) : Type 0 where
  pub set_header : String → String → W → W
  pub write_header : ℕ → W → W
  pub write : B → W → W

-- What a handler does with its writer.
pub data WriterCall (B : Type 0) : Type 0 where
  sets_header : String → String → WriterCall B
  writes_header : ℕ → WriterCall B
  writes : B → WriterCall B

module _ {B W : Type 0} (writer : ResponseWriter B W) where
  abbrev pub perform : WriterCall B → W → W
  perform (sets_header key value) = writer.set_header key value
  perform (writes_header code) = writer.write_header code
  perform (writes piece) = writer.write piece

  abbrev pub perform_all : List (WriterCall B) → W → W
  perform_all [] w = w
  perform_all (call ∷ calls) w = perform_all calls (perform call w)

-- The response of the server. Header names are in their canonical form; the first value found under
-- a name is the one that was set last. `sent` is the header as the client gets it.
pub record Response (B : Type 0) : Type 0 where
  pub header : List (String × String)
  pub status : Option ℕ
  pub sent : List (String × String)
  pub body : List B

abbrev pub fresh : {B : Type 0} → Response B
fresh = record { header = []; status = none; sent = []; body = [] }

-- The codes 1xx but 101 go out at once and leave the response open.
abbrev pub is_final : ℕ → Bool
is_final code = not (ltb code 200) || code == 101

abbrev pub body_allowed : ℕ → Bool
body_allowed code = not (ltb code 200 || (code == 204 || code == 304))

module _ {B : Type 0} where
  -- The header goes out with the first final code, and every later one is ignored.
  abbrev pub send : ℕ → Option ℕ → Response B → Response B
  send code (some _) r = r
  send code none r = if is_final code then record r { status = some code; sent = r.header } else r

  abbrev pub write_piece : B → Option ℕ → Response B → Response B
  write_piece b none r = r
  write_piece b (some code) r =
      if body_allowed code then record r { body = r.body ++ b ∷ [] } else r

  abbrev pub net_http : ResponseWriter B (Response B)
  net_http = record {
    set_header = λ key value r. record r { header = (key, value) ∷ r.header };
    write_header = λ code r. send code r.status r;
    write = λ b r. let r' = send 200 r.status r in write_piece b r'.status r';
  }

  -- The status that the client gets once the handler has returned.
  abbrev pub client_status : Response B → ℕ
  client_status r = elim r.status [ none ↦ 200 | some code ↦ code ]

  -- The header that the client gets.
  abbrev pub client_header : Response B → List (String × String)
  client_header r = elim r.status [ none ↦ r.header | some _ ↦ r.sent ]

-- What the middleware reads of a request: `Header.Get` is the empty text for a header that is not
-- there; the context holds an id of chi, empty if there is none, and one of this package.
pub record Request : Type 0 where
  pub method : String
  pub path : String
  pub remote_addr : String
  pub header : String → String
  pub chi_request_id : String
  pub request_id : Option String

pub data Ended : Type 0 where
  returns : Ended
  panics : String → Ended

-- `http.Handler`, over a state of the program.
abbrev pub Handler : Type 0 → Type 0 → Type 1
Handler B S = (W : Type 0) → ResponseWriter B W → Request → W → S → Ended × W × S

-- A handler by what it does with its writer, which tells it nothing that it uses.
abbrev pub Calls : Type 0 → Type 0 → Type 0
Calls B S = Request → S → Ended × List (WriterCall B) × S

abbrev pub handler : {B S : Type 0} → Calls B S → Handler B S
handler h W writer r w s = let (ended, calls, s') = h r s in (ended, perform_all writer calls w, s')
