-- ===== src/Demo/Replies.antt =====
-- What the demo server replies to every request, described without the code.
use insist.Base.{
  ℕ, ◌-◌, ◌<◌, ◌≤◌, ◌≡◌, refl, sym, ap, subst, ◌∙◌, arith, true, false, ◌&&◌, leb, ◌⊎◌, inl, inr,
  Bool-cases, if◌then◌else◌, List, [], ◌∷◌, ◌++◌, map, pos,
}
use insist.Message.{RpcMessage, blank, kind_response}
use insist.Demo.{codes, same_text, now_text, to_upper, response_to, not_found, handle_demo_request}

-- The second text is the first with its small letters made large.
pub data Upper : List ℕ → List ℕ → Type 0 where
  done : Upper [] []
  small : {cs ds : List ℕ} (c : ℕ) → 97 ≤ c → c ≤ 122 → Upper cs ds → Upper (c ∷ cs) ((c - 32) ∷ ds)
  other : {cs ds : List ℕ} (c : ℕ) → (c < 97) ⊎ (122 < c) → Upper cs ds → Upper (c ∷ cs) (c ∷ ds)

abbrev success : RpcMessage → List ℕ → RpcMessage
success q payload = record blank {
  id = q.id;
  kind = kind_response;
  service = q.service;
  method = q.method;
  payload = payload;
}

abbrev failure : RpcMessage → List ℕ → RpcMessage
failure q error = record blank {
  id = q.id;
  kind = kind_response;
  service = q.service;
  method = q.method;
  status = pos 404;
  error = error;
}

-- The reply to `q` at the time `now`.
pub data Replies (now : List ℕ) (q : RpcMessage) : RpcMessage → Type 0 where
  echoes :
      q.service ≡ codes "DemoService"
      → q.method ≡ codes "echo"
      → Replies now q (success q q.payload)
  uppers :
      (payload : List ℕ)
      → q.service ≡ codes "DemoService"
      → q.method ≡ codes "upper"
      → Upper q.payload payload
      → Replies now q (success q payload)
  tells_time :
      q.service ≡ codes "DemoService" → q.method ≡ codes "time" → Replies now q (success q now)
  no_method :
      q.service ≡ codes "DemoService"
      → ¬ (q.method ≡ codes "echo")
      → ¬ (q.method ≡ codes "upper")
      → ¬ (q.method ≡ codes "time")
      → Replies now q (failure q (codes "unknown method: " ++ q.method))
  no_service :
      ¬ (q.service ≡ codes "DemoService")
      → Replies now q (failure q (codes "unknown service: " ++ q.service))

upper-Upper : (cs : List ℕ) → Upper cs (map to_upper cs)
unfolding to_upper
upper-Upper [] = done
upper-Upper (c ∷ cs) = elim (Bool-cases (leb 97 c && leb c 122)) [
  | inl is_small ↦
      subst (λ d. Upper (c ∷ cs) (d ∷ map to_upper cs))
        (sym (ap (λ t. if t then c - 32 else c) is_small))
        (small c (ground arith) (ground arith) (upper-Upper cs))
  | inr is_other ↦
      subst (λ d. Upper (c ∷ cs) (d ∷ map to_upper cs))
        (sym (ap (λ t. if t then c - 32 else c) is_other)) (other c (ground arith) (upper-Upper cs))
]

same_text-eq : (s t : List ℕ) → same_text s t ≡ true → s ≡ t
unfolding same_text
same_text-eq [] [] e = refl
same_text-eq [] (y ∷ ys) e = cc
same_text-eq (x ∷ xs) [] e = cc
same_text-eq (x ∷ xs) (y ∷ ys) e = joined (ground arith) (same_text-eq xs ys (ground arith))
  where
    joined : x ≡ y → xs ≡ ys → x ∷ xs ≡ y ∷ ys
    joined a b = cc

same_text_refl : (s : List ℕ) → same_text s s ≡ true
unfolding same_text
same_text_refl [] = refl
same_text_refl (x ∷ xs) = ground (arith, same_text_refl xs)

same_text-apart : (s t : List ℕ) → same_text s t ≡ false → ¬ (s ≡ t)
same_text-apart s t apart e = absurd (cc (same_text_refl s, ap (same_text s) e, apart))

-- Without its final line feed.
now_text-line : (front : List ℕ) → now_text (front ++ 10 ∷ []) ≡ front
unfolding now_text
now_text-line [] = refl
now_text-line (c ∷ []) = refl
now_text-line (c ∷ d ∷ cs) = ap (◌∷◌ c) (now_text-line (d ∷ cs))

-- `handle_demo_request` replies to every request with a response that has its number, service and
-- method. For `DemoService` this is, with status 0, the payload for `echo`, the payload in large
-- letters for `upper`, and for `time` the line that `std::ctime` gives without its line feed, and
-- for any other method the status 404 with an error text that names the method; for any other service
-- it is the status 404 with an error text that names the service.
pub handle_demo_request-Replies :
    (clock line : List ℕ) (q : RpcMessage)
    → clock ≡ line ++ 10 ∷ []
    → Replies line q (handle_demo_request clock q)
unfolding handle_demo_request response_to not_found
handle_demo_request-Replies clock line q whole =
    elim (Bool-cases (same_text q.service (codes "DemoService"))) [
      | inr other_service ↦ rw other_service (no_service (same_text-apart _ _ other_service))
      | inl service ↦
          let here = same_text-eq _ _ service in
          elim (Bool-cases (same_text q.method (codes "echo"))) [
            | inl echo ↦ rw (service, echo) (echoes here (same_text-eq _ _ echo))
            | inr not_echo ↦ elim (Bool-cases (same_text q.method (codes "upper"))) [
              | inl upper ↦
                  rw (service, not_echo, upper)
                    (uppers (map to_upper q.payload) here (same_text-eq _ _ upper)
                      (upper-Upper q.payload))
              | inr not_upper ↦ elim (Bool-cases (same_text q.method (codes "time"))) [
                | inl time ↦
                    rw (service, not_echo, not_upper, time)
                      (subst (λ l. Replies line q (success q l))
                        (sym (ap now_text whole ∙ now_text-line line))
                        (tells_time here (same_text-eq _ _ time)))
                | inr not_time ↦
                    rw (service, not_echo, not_upper, not_time)
                      (no_method here (same_text-apart _ _ not_echo) (same_text-apart _ _ not_upper)
                        (same_text-apart _ _ not_time))
              ]
            ]
          ]
    ]
