-- ===== src/ProvisionHost/Sending.antt =====
-- The loop of send: the bytes that reach the peer, and its end.
use mathlib.Core.List.{append_assoc}
use disguise_pets.Base.{
  ℕ, zero, suc, ◌+◌, ◌-◌, ◌≤◌, ◌<◌, ◌≡◌, ◌≢◌, ◌⊎◌, inl, inr, refl, arith, true, Bool-cases, List,
  [], ◌∷◌, ◌++◌, take, drop, length, length-drop, some, ltb, ◌==◌, if◌then◌else◌, ap, ◌∙◌, sym,
  dec_lt,
}
use disguise_pets.Channel.Buffers.{take-all}
use disguise_pets.Usim.Standard.Laws.{append_nil}
use disguise_pets.ProvisionHost.{
  SendResult, sent, interrupted, failed, Machine, Relay, Notice, sent_all, only_sent, called, taken,
  send_loop, send_buffer, send_ra_req,
}

-- send takes at most the bytes that it is given.
unfoldable pub IsSend : Machine → Type 0
IsSend m = (c : ℕ) (bytes : List ℕ) (k : ℕ) → m.send c bytes ≡ sent k → k ≤ length bytes

-- From a call of the machine on, no signal interrupts send.
unfoldable pub Quiet : Machine → ℕ → Type 0
Quiet m from = (c : ℕ) (bytes : List ℕ) → from ≤ c → m.send c bytes ≢ interrupted

-- Why the loop stopped before the end of the data.
pub Stopped : Machine → List ℕ → Type 0
Stopped m rest = (c : ℕ) × ((m.send c rest ≡ failed) ⊎ (m.send c rest ≡ sent 0))

-- What a loop over `data_` leaves in `h`: the kernel has taken the first `total` bytes behind `wire`,
-- and these are all unless send failed or the peer closed the connection.
pub record Transferred (m : Machine) (data_ wire : List ℕ) (total : ℕ) (h : Relay) : Type 0 where
  pub bound : total ≤ length data_
  pub taken_all : h.wire ≡ wire ++ take total data_
  pub reason : (total ≡ length data_) ⊎ Stopped m (drop total data_)

data SendCase (r : SendResult) : Type 0 where
  is_failed : r ≡ failed → SendCase r
  is_interrupted : r ≡ interrupted → SendCase r
  is_closed : r ≡ sent 0 → SendCase r
  is_sent : (k : ℕ) → r ≡ sent (suc k) → SendCase r

send_case : (r : SendResult) → SendCase r
send_case failed = is_failed refl
send_case interrupted = is_interrupted refl
send_case (sent zero) = is_closed refl
send_case (sent (suc k)) = is_sent k refl

take-add : (t k : ℕ) (xs : List ℕ) → take t xs ++ take k (drop t xs) ≡ take (t + k) xs
take-add zero k xs = let same : 0 + k ≡ k = omega arith in rw same refl
take-add (suc t) zero [] = let same : suc t + 0 ≡ suc t = omega arith in rw same refl
take-add (suc t) (suc k) [] =
    let next : suc t + suc k ≡ suc (t + suc k) = omega arith in rw next refl
take-add (suc t) k (x ∷ xs) =
    let next : suc t + k ≡ suc (t + k) = omega arith in rw (next, sym (take-add t k xs)) refl

Reaches : ℕ → Machine → (data_ wire : List ℕ) (t : ℕ) → Relay → Type 0
Reaches n m data_ wire t h =
    (total : ℕ) × (h' : Relay) × (send_loop n m data_ t h ≡ some (total, h'))
    × Transferred m data_ wire total h'
    × (h'.notices ≡ h.notices)

send_loop_from :
    (n from : ℕ) (m : Machine) (data_ wire : List ℕ) (t : ℕ) (h : Relay)
    → IsSend m
    → Quiet m from
    → t ≤ length data_
    → h.wire ≡ wire ++ take t data_
    → (from - h.calls) + (length data_ - t) < n
    → Reaches n m data_ wire t h
unfolding send_loop IsSend Quiet Stopped called taken Reaches
send_loop_from zero from m data_ wire t h is_send quiet le e fuel = absurd (omega arith)
send_loop_from (suc n) from m data_ wire t h is_send quiet le e fuel =
    elim (Bool-cases (ltb t (length data_))) [
      | inr over ↦ (
        t,
        h,
        rw (send_loop, over) refl,
        record { bound = le; taken_all = e; reason = inl (ground (arith, over, le)) },
        refl,
      )
      | inl more ↦
          let rest = drop t data_ in
          let stop : (reason : Stopped m rest) → Transferred m data_ wire t (called h) =
            λ reason. record { bound = le; taken_all = e; reason = inr reason } in
          elim (send_case (m.send h.calls rest)) [
            | is_failed f ↦ (t, called h, rw (send_loop, more, f) refl, stop (h.calls, inl f), refl)
            | is_closed c ↦ (t, called h, rw (send_loop, more, c) refl, stop (h.calls, inr c), refl)
            | is_interrupted i ↦
                let early : h.calls < from = elim (dec_lt h.calls from) [
                  | yes early ↦ early
                  | no late ↦ absurd (quiet h.calls rest (omega arith) i)
                ] in
                let (total, h', run, done, same) =
                  send_loop_from n from m data_ wire t (called h) is_send quiet le e
                    (omega arith) in
                (total, h', rw (send_loop, more, i) run, done, same)
            | is_sent k s ↦
                let room : suc k ≤ length data_ - t =
                  omega (arith, is_send h.calls rest (suc k) s, length-drop t data_) in
                let (total, h', run, done, same) =
                  send_loop_from n from m data_ wire (t + suc k) (taken (suc k) rest h) is_send
                    quiet (omega arith)
                    (ap (λ w. w ++ take (suc k) rest) e
                      ∙ append_assoc wire (take t data_) (take (suc k) rest)
                      ∙ ap (◌++◌ wire) (take-add t (suc k) data_))
                    (omega arith) in
                (total, h', rw (send_loop, more, s) run, done, same)
          ]
    ]

abbrev pub notice_of : (total len : ℕ) → Notice
notice_of total len = if total == len then sent_all total else only_sent total len

-- If send never takes more than it is given and no signal interrupts it from call `from` on, then a
-- transfer ends within one pass for each byte and each earlier call: the kernel has then taken a prefix
-- of the data, in order, behind what it had, the whole of it unless send failed or the peer closed the
-- connection, and the notice says which prefix.
pub send_buffer_lem :
    (n from : ℕ) (m : Machine) (data_ : List ℕ) (h : Relay)
    → IsSend m
    → Quiet m from
    → (from - h.calls) + length data_ < n
    → (total : ℕ) × (h' : Relay) × (send_buffer n m data_ h ≡ some h')
      × Transferred m data_ h.wire total h'
      × (h'.notices ≡ notice_of total (length data_) ∷ h.notices)
unfolding send_buffer Reaches
send_buffer_lem n from m data_ h is_send quiet fuel =
    let (total, h', run, done, same) =
      send_loop_from n from m data_ h.wire 0 h is_send quiet (omega arith) (sym (append_nil h.wire))
        (omega arith) in
    let h'' : Relay = record h' { notices = notice_of total (length data_) ∷ h'.notices } in
    (
      total,
      h'',
      rw run refl,
      record { bound = done.bound; taken_all = done.taken_all; reason = done.reason },
      ap (◌∷◌ (notice_of total (length data_))) same,
    )

-- No call of send that is given bytes fails, and the peer keeps the connection open.
unfoldable pub Stays : Machine → Type 0
Stays m =
    (c : ℕ) (bytes : List ℕ)
    → 0 < length bytes
    → (m.send c bytes ≢ failed) × (m.send c bytes ≢ sent 0)

Stays-not_Stopped : (m : Machine) (rest : List ℕ) → Stays m → 0 < length rest → ¬ Stopped m rest
unfolding Stays Stopped
Stays-not_Stopped m rest stays some_left (c, inl f) = (stays c rest some_left).0 f
Stays-not_Stopped m rest stays some_left (c, inr z) = (stays c rest some_left).1 z

Transferred-whole :
    (m : Machine) (data_ wire : List ℕ) (total : ℕ) (h : Relay)
    → Stays m
    → Transferred m data_ wire total h
    → (total ≡ length data_) × (h.wire ≡ wire ++ data_)
Transferred-whole m data_ wire total h stays done =
    let whole : total ≡ length data_ = elim (dec_lt total (length data_)) [
      | no all ↦ omega (arith, done.bound)
      | yes part ↦ elim done.reason [
        | inl whole ↦ whole
        | inr stopped ↦ absurd (
            Stays-not_Stopped m (drop total data_) stays (omega (arith, length-drop total data_))
              stopped)
      ]
    ] in
    (whole, done.taken_all ∙ ap (◌++◌ wire) (take-all total data_ (sym whole)))

ends : (n : ℕ) → (n == n) ≡ true
ends n = ground arith

-- To a peer that stays, send_buffer sends the data behind what it has sent before.
pub send_buffer-Stays :
    (n from : ℕ) (m : Machine) (data_ : List ℕ) (h : Relay)
    → IsSend m
    → Quiet m from
    → Stays m
    → from + length data_ < n
    → (h' : Relay) × (send_buffer n m data_ h ≡ some h')
      × (h'.wire ≡ h.wire ++ data_)
      × (h'.notices ≡ sent_all (length data_) ∷ h.notices)
send_buffer-Stays n from m data_ h is_send quiet stays fuel =
    let (total, h', run, done, notices) =
      send_buffer_lem n from m data_ h is_send quiet (omega arith) in
    let (whole, all) = Transferred-whole m data_ h.wire total h' stays done in
    let own : notice_of total (length data_) ≡ sent_all (length data_) =
      rw whole (rw (ends (length data_)) refl) in
    (h', run, all, notices ∙ ap (λ x. x ∷ h.notices) own)

-- To a peer that stays, over a connection that opens, send_ra_req sends the request and nothing else.
pub send_ra_req_lem :
    (n from : ℕ) (m : Machine) (data_ : List ℕ) (h : Relay)
    → IsSend m
    → Quiet m from
    → Stays m
    → m.connects h.calls ≡ true
    → from + length data_ < n
    → (h' : Relay) × (send_ra_req n m data_ h ≡ some h')
      × (h'.wire ≡ data_)
      × (h'.notices ≡ sent_all (length data_) ∷ h.notices)
unfolding send_ra_req
send_ra_req_lem n from m data_ h is_send quiet stays connected fuel =
    let fresh : Relay = record (called h) { wire = [] } in
    let (h', run, all, notices) = send_buffer-Stays n from m data_ fresh is_send quiet stays fuel in
    (h', rw (send_ra_req, connected) run, all, notices)
