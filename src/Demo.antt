-- ===== src/Demo.antt =====
-- examples/server_main.cpp: what the demo server answers to a request. The modules below are about the
-- demo server at its connections, and Demo/Caller.antt about examples/client_main.cpp.
-- A text is the list of its bytes. `std::toupper` is that of the C locale.
pub mod Exchange
pub mod Replies
pub mod Serving
pub mod System
pub mod Answering
pub mod Caller
mod Talk
mod Runs
use insist.Base.{
  ℕ, ◌+◌, ◌-◌, ◌≡◌, Bool, true, false, ◌&&◌, leb, ◌==◌, if◌then◌else◌, List, [], ◌∷◌, ◌++◌, map,
  pos,
}
use Prim.Native.Char.{code}
use Prim.Native.String.{String}
use insist.Message.{RpcMessage, blank, kind_response}

-- The bytes of a literal, which are its code points, since it is ASCII.
abbrev pub codes : String → List ℕ
codes String.[] = []
codes (String.◌∷◌ c s) = code c ∷ codes s

-- `==` on `std::string`
unfoldable pub same_text : List ℕ → List ℕ → Bool
same_text [] [] = true
same_text [] (y ∷ ys) = false
same_text (x ∷ xs) [] = false
same_text (x ∷ xs) (y ∷ ys) = (x == y) && same_text xs ys

-- `now_text`, from the text that `std::ctime` makes: its final line feed is dropped.
unfoldable pub now_text : List ℕ → List ℕ
now_text [] = []
now_text (c ∷ []) = if c == 10 then [] else c ∷ []
now_text (c ∷ d ∷ cs) = c ∷ now_text (d ∷ cs)

-- `std::toupper`
to_upper : ℕ → ℕ
to_upper c = if leb 97 c && leb c 122 then c - 32 else c

-- The response before the service and the method are looked at.
response_to : RpcMessage → RpcMessage
response_to request = record blank {
  id = request.id;
  kind = kind_response;
  service = request.service;
  method = request.method;
}

not_found : List ℕ → RpcMessage → RpcMessage
not_found error response = record response { status = pos 404; error = error }

-- `clock` is what `std::ctime` gives at this time.
pub handle_demo_request : List ℕ → RpcMessage → RpcMessage
unfolding response_to not_found
handle_demo_request clock request =
    let response = response_to request in
    if same_text request.service (codes "DemoService")
    then if same_text request.method (codes "echo")
      then record response { payload = request.payload }
      else if same_text request.method (codes "upper")
      then record response { payload = map to_upper request.payload }
      else if same_text request.method (codes "time")
      then record response { payload = now_text clock }
      else not_found (codes "unknown method: " ++ request.method) response
    else not_found (codes "unknown service: " ++ request.service) response
