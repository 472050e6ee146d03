-- ===== src/Server/Closing.antt =====
-- What the accept loop and the connections' threads of server/src/net/ssl_server.c leave open, however they run side by
-- side.
use esp_mo_net.Base.{
  true, false, none, some, [], ◌∷◌, ◌++◌, refl, none, some, ℕ, List, ◌+◌, ◌≡◌, if◌then◌else◌, arith,
  ◌==◌, Bool, length, ◌∙◌, Ensures, Ensures-some, Ensures-bind, Ensures-map, Ensures-mono,
}
use esp_mo_net.Server.Process.{
  close, ssl_new, ssl_free, accept_failed, client, SystemCall, Accepted, client_calls, accept_loop,
  threads, close, client, conversation_calls, Conversation, returns, set_fd, ssl_accept,
}
use esp_mo_net.Server.{ssl_read}
use esp_mo_net.Server.Client.{client_thread}

-- A sum over calls.
abbrev pub tally : (SystemCall → ℕ) → List SystemCall → ℕ
tally weight [] = 0
tally weight (call ∷ calls) = weight call + tally weight calls

-- A close of the descriptor.
abbrev pub closing : ℕ → SystemCall → ℕ
closing fd (close d) = if d == fd then 1 else 0
closing fd call = 0

abbrev pub making : SystemCall → ℕ
making ssl_new = 1
making call = 0

abbrev pub freeing : SystemCall → ℕ
freeing ssl_free = 1
freeing call = 0

-- How often `accept` gave the descriptor.
abbrev pub accepts : ℕ → List Accepted → ℕ
accepts fd [] = 0
accepts fd (accept_failed ∷ arrivals) = accepts fd arrivals
accepts fd (client d c ∷ arrivals) = (if d == fd then 1 else 0) + accepts fd arrivals

-- The calls of two threads, one after the other in any way.
pub data Merge : List SystemCall → List SystemCall → List SystemCall → Type 0 where
  done : Merge [] [] []
  left : {c : SystemCall} {xs ys zs : List SystemCall} → Merge xs ys zs → Merge (c ∷ xs) ys (c ∷ zs)
  right :
      {c : SystemCall} {xs ys zs : List SystemCall} → Merge xs ys zs → Merge xs (c ∷ ys) (c ∷ zs)

-- The calls of any number of threads.
pub data Interleaved : List (List SystemCall) → List SystemCall → Type 0 where
  alone : Interleaved [] []
  beside :
      {calls : List SystemCall} {others : List (List SystemCall)} {rest trace : List SystemCall}
      → Interleaved others rest
      → Merge calls rest trace
      → Interleaved (calls ∷ others) trace

module _ (weight : SystemCall → ℕ) where
  tally-append :
      (xs ys : List SystemCall) → tally weight (xs ++ ys) ≡ tally weight xs + tally weight ys
  tally-append [] ys = omega arith
  tally-append (x ∷ xs) ys = omega (arith, tally-append xs ys)

  tally-Merge :
      {xs ys zs : List SystemCall}
      → Merge xs ys zs
      → tally weight zs ≡ tally weight xs + tally weight ys
  tally-Merge done = refl
  tally-Merge (left m) = omega (arith, tally-Merge m)
  tally-Merge (right m) = omega (arith, tally-Merge m)

  abbrev tally_all : List (List SystemCall) → ℕ
  tally_all [] = 0
  tally_all (calls ∷ others) = tally weight calls + tally_all others

  tally-Interleaved :
      {all : List (List SystemCall)} {trace : List SystemCall}
      → Interleaved all trace
      → tally weight trace ≡ tally_all all
  tally-Interleaved alone = refl
  tally-Interleaved (beside i m) = omega (arith, tally-Merge m, tally-Interleaved i)

-- Calls that close the descriptor `d` once and free one object.
abbrev Ends : ℕ → ℕ → List SystemCall → Type 0
Ends fd d calls =
    (tally (closing fd) calls ≡ (if d == fd then 1 else 0))
    × (tally making calls ≡ 0)
    × (tally freeing calls ≡ 1)

-- Calls that do so and made the object before.
abbrev Settles : ℕ → ℕ → List SystemCall → Type 0
Settles fd d calls =
    (tally (closing fd) calls ≡ (if d == fd then 1 else 0))
    × (tally making calls ≡ tally freeing calls)

conversation-Ends :
    (fd d : ℕ) (handshake quiet back : Bool)
    → Ensures (Ends fd d) (conversation_calls handshake quiet back d)
conversation-Ends fd d false quiet back = (omega arith, refl, refl)
conversation-Ends fd d true true back = (omega arith, refl, refl)
conversation-Ends fd d true false false = tt
conversation-Ends fd d true false true = (omega arith, refl, refl)

client-Settles : (fd d : ℕ) (c : Conversation) → Ensures (Settles fd d) (client_calls d c)
unfolding client_calls
client-Settles fd d c =
    let back = returns (client_thread c.handshake c.room c.incoming) in
    let quiet = length (ssl_read 4095 c.incoming).0 == 0 in
    Ensures-map (Settles fd d) (λ calls. ssl_new ∷ set_fd d ∷ ssl_accept ∷ calls)
      (conversation_calls c.handshake quiet back d)
      (λ calls e.
        (let (closes, makes, frees) =
            Ensures-some (Ends fd d) (conversation_calls c.handshake quiet back d)
              (conversation-Ends fd d c.handshake quiet back) e in
          (omega (arith, closes), omega (arith, makes, frees))))

-- The loop makes and frees no object.
loop_plain :
    (arrivals : List Accepted)
    → (tally making (accept_loop arrivals) ≡ 0) × (tally freeing (accept_loop arrivals) ≡ 0)
unfolding accept_loop
loop_plain [] = (refl, refl)
loop_plain (accept_failed ∷ arrivals) = ground (arith, loop_plain arrivals)
loop_plain (client d none ∷ arrivals) = ground (arith, loop_plain arrivals)
loop_plain (client d (some c) ∷ arrivals) = ground (arith, loop_plain arrivals)

-- The descriptors that the threads close, together with those that the loop closes, and the objects.
abbrev AllSettle : ℕ → List Accepted → List (List SystemCall) → Type 0
AllSettle fd arrivals all =
    (tally (closing fd) (accept_loop arrivals) + tally_all (closing fd) all ≡ accepts fd arrivals)
    × (tally_all making all ≡ tally_all freeing all)

threads-AllSettle :
    (fd : ℕ) (arrivals : List Accepted) → Ensures (AllSettle fd arrivals) (threads arrivals)
unfolding accept_loop threads
threads-AllSettle fd [] = (refl, refl)
threads-AllSettle fd (accept_failed ∷ arrivals) =
    Ensures-mono (AllSettle fd arrivals) (AllSettle fd (accept_failed ∷ arrivals))
      (threads arrivals) (threads-AllSettle fd arrivals) (λ all h. (omega (arith, h.0), h.1))
threads-AllSettle fd (client d none ∷ arrivals) =
    Ensures-mono (AllSettle fd arrivals) (AllSettle fd (client d none ∷ arrivals))
      (threads arrivals) (threads-AllSettle fd arrivals) (λ all h. (omega (arith, h.0), h.1))
threads-AllSettle fd (client d (some c) ∷ arrivals) =
    Ensures-bind (Settles fd d) (AllSettle fd (client d (some c) ∷ arrivals)) _ (client_calls d c)
      (client-Settles fd d c)
      (λ calls h.
        (Ensures-bind (AllSettle fd arrivals) (AllSettle fd (client d (some c) ∷ arrivals)) _
          (threads arrivals) (threads-AllSettle fd arrivals)
          (λ all rest. (omega (arith, h.0, rest.0), omega (arith, h.1, rest.1)))))

-- However the accept loop and the threads of the connections run side by side, once the threads
-- have ended every descriptor was closed as often as accept gave it, and every TLS object that was
-- made was freed: whichever accepts fail, whichever threads cannot be made, whichever handshakes
-- fail, and whatever the clients send, as long as no thread copies a frame beyond its buffer. The
-- handlers of the status, of updates and of checksums return.
pub connections_closed :
    (arrivals : List Accepted) (all : List (List SystemCall)) (trace : List SystemCall) (fd : ℕ)
    → threads arrivals ≡ some all
    → Interleaved (accept_loop arrivals ∷ all) trace
    → (tally (closing fd) trace ≡ accepts fd arrivals) × (tally making trace ≡ tally freeing trace)
connections_closed arrivals all trace fd back mixed =
    let (closes, free) =
      Ensures-some (AllSettle fd arrivals) (threads arrivals) (threads-AllSettle fd arrivals)
        back in
    let plain = loop_plain arrivals in
    (
      tally-Interleaved (closing fd) mixed ∙ closes,
      omega (
        arith,
        tally-Interleaved making mixed,
        tally-Interleaved freeing mixed,
        plain.0,
        plain.1,
        free,
      ),
    )
