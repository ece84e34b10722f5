-- ===== src/Grpc/Wire.antt =====
-- A network that meets the interface: it is up or down, and keeps what was sent while it was up.
use multi_region.Prelude.{
  ℕ, ◌+◌, ◌≡◌, refl, Bool, true, false, Option, none, some, List, [], ◌∷◌, ◌++◌, ◌==◌, ==_iff,
  if◌then◌else◌,
}
use multi_region.Envelope.{Envelope}
use multi_region.Grpc.{Grpc}

pub record Wire : Type 0 where
  pub is_up : Bool
  pub log : List Envelope
  pub next : ℕ

abbrev pub transmit : ℕ → Envelope → Wire → Bool × Wire
transmit u env w = if w.is_up then (true, record w { log = w.log ++ env ∷ [] }) else (false, w)

pub transmit-log :
    (b : Bool) (u : ℕ) (env : Envelope) (w : Wire)
    → w.is_up ≡ b
    → (transmit u env w).1.log ≡ (if (transmit u env w).0 then w.log ++ env ∷ [] else w.log)
transmit-log true u env w e = rw e
transmit-log false u env w e = rw e

-- Connections and streams are numbered as they are made; a connection opens while the wire is up.
abbrev pub dial : Wire → Option ℕ × Wire
dial w = if w.is_up then (some w.next, record w { next = w.next + 1 }) else (none, w)

pub dial-log : (b : Bool) (w : Wire) → w.is_up ≡ b → (dial w).1.log ≡ w.log
dial-log true w e = rw e
dial-log false w e = rw e

abbrev pub wire : Grpc
wire = record {
  World = Wire;
  Tls = Unit {0};
  Conn = ℕ;
  UpStream = ℕ;
  DownStream = ℕ;
  Cancel = ℕ;
  new_client = λ target t w. dial w;
  open_upstream = λ c node_id w. (some c, w);
  open_downstream = λ c node_id f w. (some c, w);
  send = transmit;
  close = λ c w. (true, w);
  with_cancel = λ w. (0, w);
  cancel = λ f w. w;
  same_stream = λ a b. a == b;
  same_stream_iff = ==_iff;
  sent = λ w. w.log;
  sent-send = λ u env w. transmit-log w.is_up u env w refl;
  sent-new_client = λ target t w. dial-log w.is_up w refl;
  sent-open_upstream = λ c node_id w. refl;
  sent-close = λ c w. refl;
}

abbrev pub up : Wire
up = record { is_up = true; log = []; next = 0 }

abbrev pub down : Wire
down = record { is_up = false; log = []; next = 0 }
