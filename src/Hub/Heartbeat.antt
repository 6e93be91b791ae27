-- ===== src/Hub/Heartbeat.antt =====
-- Which connections the heartbeat closes.
use io_t_billing_service.Base.{
  ℕ, zero, suc, ◌≡◌, refl, ◌∙◌, Bool, true, false, ◌&&◌, ◌||◌, ◌==◌, List, [], ◌∷◌, map, All, arith,
  Bool-cases, if◌then◌else◌, inl, inr,
}
use io_t_billing_service.Hub.Clients.{Client, on_pong, beat, heartbeat}

-- Two beats with no pong between them close every connection.
heartbeat-heartbeat_closes :
    (clients : List Client)
    → All (λ (c : Client). c.is_open ≡ false) (heartbeat (heartbeat clients))
unfolding heartbeat beat
heartbeat-heartbeat_closes [] = tt
heartbeat-heartbeat_closes (c ∷ cs) = (ground arith, heartbeat-heartbeat_closes cs)

-- `n` beats, each followed by a pong of the client `id`.
answered_beats : ℕ → ℕ → List Client → List Client
answered_beats zero id clients = clients
answered_beats (suc n) id clients = answered_beats n id (on_pong id (heartbeat clients))

-- The client is connected and has answered.
abbrev IsWell : ℕ → Client → Type 0
IsWell id c = c.id ≡ id → (c.is_open ≡ true) × (c.is_alive ≡ true)

answered_beat-IsWell :
    (id : ℕ) (clients : List Client)
    → All (IsWell id) clients
    → All (IsWell id) (on_pong id (heartbeat clients))
unfolding on_pong heartbeat beat
answered_beat-IsWell id [] h = tt
answered_beat-IsWell id (c ∷ cs) (w, ws) = (λ e. ground (arith, w), answered_beat-IsWell id cs ws)

-- A client that answers each beat before the next one stays connected, for any number of beats.
answered_beats-IsWell :
    (n id : ℕ) (clients : List Client)
    → All (IsWell id) clients
    → All (IsWell id) (answered_beats n id clients)
unfolding answered_beats
answered_beats-IsWell zero id clients h = h
answered_beats-IsWell (suc n) id clients h =
    answered_beats-IsWell n id (on_pong id (heartbeat clients)) (answered_beat-IsWell id clients h)

-- A beat of the timer, or the pong of a client.
pub data Pulse : Type 0 where
  beats : Pulse
  pongs : ℕ → Pulse

abbrev pub pulse : Pulse → List Client → List Client
pulse beats clients = heartbeat clients
pulse (pongs id) clients = on_pong id clients

abbrev pub pulses : List Pulse → List Client → List Client
pulses [] clients = clients
pulses (p ∷ ps) clients = pulses ps (pulse p clients)

-- Whether the client answers each beat before the next one; `alive` if it has answered the last.
abbrev pub answers : ℕ → Bool → List Pulse → Bool
answers id alive [] = true
answers id alive (beats ∷ ps) = alive && answers id false ps
answers id alive (pongs i ∷ ps) = answers id ((id == i) || alive) ps

abbrev pub stays_open : List Pulse → Client → Bool
stays_open ps c = c.is_open && answers c.id c.is_alive ps

beat-stays_open :
    (ps : List Pulse) (c : Client) → stays_open ps (beat c) ≡ stays_open (beats ∷ ps) c
unfolding beat
beat-stays_open ps c = elim (Bool-cases c.is_alive) [
  | inl alive ↦ rw alive refl
  | inr silent ↦ rw silent (ground arith)
]

pong-stays_open :
    (id : ℕ) (ps : List Pulse) (c : Client)
    → stays_open ps (if c.id == id then record c { is_alive = true } else c)
      ≡ stays_open (pongs id ∷ ps) c
pong-stays_open id ps c = elim (Bool-cases (c.id == id)) [
  | inl its ↦ rw its refl
  | inr other ↦ rw other refl
]

heartbeat-stays_open :
    (ps : List Pulse) (clients : List Client)
    → map (stays_open ps) (heartbeat clients) ≡ map (stays_open (beats ∷ ps)) clients
unfolding heartbeat beat
heartbeat-stays_open ps [] = refl
heartbeat-stays_open ps (c ∷ cs) =
    let h = beat-stays_open ps c in let t = heartbeat-stays_open ps cs in cc

on_pong-stays_open :
    (id : ℕ) (ps : List Pulse) (clients : List Client)
    → map (stays_open ps) (on_pong id clients) ≡ map (stays_open (pongs id ∷ ps)) clients
unfolding on_pong
on_pong-stays_open id ps [] = refl
on_pong-stays_open id ps (c ∷ cs) =
    let h = pong-stays_open id ps c in let t = on_pong-stays_open id ps cs in cc

map_is_open :
    (clients : List Client) → map (λ (c : Client). c.is_open) clients ≡ map (stays_open []) clients
map_is_open [] = refl
map_is_open (c ∷ cs) = let t = map_is_open cs in ground arith

-- After any beats and pongs, in any order, a connection is open just if it was open and its client
-- has answered each beat before the next one.
pub pulses-stays_open :
    (ps : List Pulse) (clients : List Client)
    → map (λ (c : Client). c.is_open) (pulses ps clients) ≡ map (stays_open ps) clients
pulses-stays_open [] clients = map_is_open clients
pulses-stays_open (beats ∷ ps) clients =
    pulses-stays_open ps (heartbeat clients) ∙ heartbeat-stays_open ps clients
pulses-stays_open (pongs id ∷ ps) clients =
    pulses-stays_open ps (on_pong id clients) ∙ on_pong-stays_open id ps clients
