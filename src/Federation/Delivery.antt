-- ===== src/Federation/Delivery.antt =====
-- What a client of the bus's event log can rely on (packages/federation-bus/src/index.ts): an
-- envelope is stored once, and a poll misses nothing that the log still holds.
use Prim.Native.Nat.{min}
use droid_swarm.Prelude.{
  ℕ, zero, suc, ◌+◌, ◌-◌, ◌≤◌, ◌<◌, ◌≡◌, refl, ap, ◌∙◌, String, true, false, ltb, List, [], ◌∷◌,
  length, drop, filter, arith, length-drop, eq_refl, Bool-cases, inl, inr,
}
use droid_swarm.Prelude.Sets.{has-append_end, add-append_end, append_end, add, has}
use droid_swarm.Federation.Wire.{PostPayload, BusEvent, BusConfig}
use droid_swarm.Federation.Bus.{
  BusState, posted, trim_ids, retention_limit, store_event, accept_post, Parsed, natural, page_size,
  get_events,
}
use droid_swarm.Federation.Events.{Numbered, IsLog, log_of, accept_post-log_of}

trim_ids-append_end :
    (limit : ℕ) (ids : List String) (x : String)
    → 0 < limit
    → has (trim_ids limit (append_end ids x)) x ≡ true
unfolding trim_ids append_end has
trim_ids-append_end limit [] x h = ground (arith, eq_refl x)
trim_ids-append_end limit (y ∷ ids) x h =
    ground (arith, trim_ids-append_end limit ids x, has-append_end ids x x, eq_refl x)

-- The newest id stays when old ones are dropped.
trim_ids-newest :
    (limit : ℕ) (ids : List String) (x : String)
    → 0 < limit
    → has ids x ≡ false
    → has (trim_ids limit (add ids x)) x ≡ true
trim_ids-newest limit ids x h new =
    rw (add-append_end ids x new) (trim_ids-append_end limit ids x h)

accept_post-seen :
    (config : BusConfig) (now : String) (p : PostPayload) (s : BusState)
    → has (accept_post config now p s).0.seen_envelope_ids p.envelope.id ≡ true
unfolding store_event
accept_post-seen config now p s = elim (Bool-cases (has s.seen_envelope_ids p.envelope.id)) [
  | inl old ↦
      ap (λ (l : List BusEvent × ℕ × ℕ × List String). has l.3 p.envelope.id) {y = log_of s}
        (accept_post-log_of config now p s ∙ ground (arith, old))
      ∙ old
  | inr new ↦
      ap (λ (l : List BusEvent × ℕ × ℕ × List String). has l.3 p.envelope.id)
        {y = log_of (store_event config now p s)}
        (accept_post-log_of config now p s ∙ ground (arith, new))
      ∙ trim_ids-newest 10000 s.seen_envelope_ids p.envelope.id (omega arith) new
]

-- Once an accepted post has carried an envelope, an accepted post that carries an envelope of the
-- same id next is answered as a duplicate, with the latest sequence number, and changes nothing.
pub accept_post-twice :
    (config : BusConfig) (now later : String) (p q : PostPayload) (s : BusState)
    → q.envelope.id ≡ p.envelope.id
    → accept_post config later q (accept_post config now p s).0 ≡ (
      (accept_post config now p s).0,
      posted true (accept_post config now p s).0.latest_sequence,
      [],
    )
accept_post-twice config now later p q s same =
    let seen : has (accept_post config now p s).0.seen_envelope_ids q.envelope.id ≡ true =
      rw same (accept_post-seen config now p s) in
    unfold accept_post in rw seen

Numbered-drop :
    (latest n : ℕ) (es : List BusEvent) → Numbered latest es → Numbered latest (drop n es)
Numbered-drop latest zero es h = h
Numbered-drop latest (suc n) [] h = h
Numbered-drop latest (suc n) (e ∷ es) h = Numbered-drop latest n es h.1

-- The events above a number are the last ones.
Numbered-filter :
    (latest since : ℕ) (es : List BusEvent)
    → Numbered latest es
    → Numbered latest (filter (λ e. ltb since e.sequence) es)
      × (length (filter (λ e. ltb since e.sequence) es) ≡ min (length es) (latest - since))
Numbered-filter latest since [] h = (tt, omega arith)
Numbered-filter latest since (e ∷ es) (h, hs) =
    let (numbered, size) = Numbered-filter latest since es hs in
    elim (Bool-cases (ltb since e.sequence)) [
      | inl above ↦ rw above ((ground arith, numbered), ground arith)
      | inr below ↦ rw below (numbered, ground arith)
    ]

-- A poll of a bus whose log is in order, which starts at a number that the log reaches back to and
-- asks for a page that is long enough, gives exactly the events after that number: as many as
-- there are, numbered up to the latest number, which it gives too.
pub get_events_complete :
    (config : BusConfig) (since : ℕ) (limit : Parsed) (s : BusState)
    → IsLog config s
    → s.latest_sequence ≤ since + length s.events
    → s.latest_sequence ≤ since + page_size (retention_limit config) limit
    → ((get_events config (natural since) limit s).0 ≡ s.latest_sequence)
      × (length (get_events config (natural since) limit s).1 ≡ s.latest_sequence - since)
      × Numbered s.latest_sequence (get_events config (natural since) limit s).1
unfolding get_events
get_events_complete config since limit s h held fits =
    let (numbered, size) = Numbered-filter s.latest_sequence since s.events h.numbered in
    (refl, omega (arith, length-drop {0}), Numbered-drop s.latest_sequence _ _ numbered)
