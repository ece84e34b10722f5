-- ===== src/Agent.antt =====
-- examples/agent/main.go: a program that posts log entries to the HTTP interface of a node.
pub mod Interval
pub mod Reports
mod Tests
use multi_region.Prelude.{
  ℕ, zero, suc, ◌+◌, ◌-◌, ◌*◌, ◌%◌, ◌==◌, Bool, true, false, Option, none, some, List, [], ◌∷◌,
  ◌++◌, Bytes, str, ltb, if◌then◌else◌, ℤ, pos, negsuc, decimal,
}

pub record FileConfig : Type 0 where
  pub service_addr : Bytes
  -- An `int` of 64 bits.
  pub interval_seconds : ℤ
  pub payload : Bytes

pub data Error : Type 0 where
  read_failed : Error
  parse_failed : Error
  addr_required : Error
  marshal_failed : Error
  post_failed : Error
  unexpected_status : ℕ → Error

pub data Loaded : Type 0 where
  loaded : FileConfig → Loaded
  failed : Error → Loaded

is_empty : Bytes → Bool
is_empty [] = true
is_empty (b ∷ bs) = false

check : FileConfig → Loaded
unfolding is_empty
check cfg = if is_empty cfg.service_addr then failed addr_required else loaded cfg

parse_file : (Bytes → Option FileConfig) → Bytes → Loaded
unfolding check
parse_file unmarshal bytes = elim (unmarshal bytes) [
  | none ↦ failed parse_failed
  | some cfg ↦ check cfg
]

-- `read_file` and `unmarshal` are os.ReadFile and json.Unmarshal.
pub load_config : (Bytes → Option Bytes) → (Bytes → Option FileConfig) → Bytes → Loaded
unfolding parse_file
load_config read_file unmarshal path = elim (read_file path) [
  | none ↦ failed read_failed
  | some bytes ↦ parse_file unmarshal bytes
]

-- The integer that a pattern of 64 bits stands for.
signed64 : ℕ → ℤ
signed64 w = if ltb w 0x8000_0000_0000_0000 then pos w else negsuc (0xffff_ffff_ffff_ffff - w)

abbrev pub second : ℕ
second = 1_000_000_000

-- `time.Duration(s) * time.Second`, which wraps around.
in_seconds : ℤ → ℤ
unfolding signed64
in_seconds (pos n) = signed64 ((n * second) % 0x1_0000_0000_0000_0000)
in_seconds (negsuc n) = signed64 (
    (0x1_0000_0000_0000_0000 - ((n + 1) * second) % 0x1_0000_0000_0000_0000)
    % 0x1_0000_0000_0000_0000)

-- An interval that is not positive gives way to five seconds.
or_default : ℤ → ℤ
or_default (pos n) = if n == 0 then pos (5 * second) else pos n
or_default (negsuc n) = pos (5 * second)

pub interval : FileConfig → ℤ
unfolding in_seconds or_default
interval cfg = or_default (in_seconds cfg.interval_seconds)

pub url : FileConfig → Bytes
url cfg = cfg.service_addr ++ str "/api/v1/agent/logs"

pub payload_at : FileConfig → ℕ → Bytes
unfolding is_empty
payload_at cfg n = if is_empty cfg.payload then str "agent tick #" ++ decimal n else cfg.payload

check_status : ℕ → Option Error
check_status code = if code == 202 then none else some (unexpected_status code)

module _ {W : Type 0} (marshal : Bytes → Bytes → Option Bytes)
    (post : Bytes → Bytes → W → Option ℕ × W) where
  answered : Option ℕ × W → Option Error × W
  unfolding check_status
  answered (none, w) = (some post_failed, w)
  answered (some code, w) = (check_status code, w)

  -- `marshal` is json.Marshal of an object with one field; `post` is the POST of an HTTP client,
  -- whose answer is the status code.
  pub send_log : Bytes → Bytes → W → Option Error × W
  unfolding answered
  send_log url payload w = elim (marshal (str "payload") payload) [
    | none ↦ (some marshal_failed, w)
    | some body ↦ answered (post url body w)
  ]

  -- So many rounds of the loop of `main`, of which the first has this number; what it logs of each.
  pub rounds : FileConfig → ℕ → ℕ → W → List (Option Error) × W
  rounds cfg zero n w = ([], w)
  rounds cfg (suc k) n w =
      let (e, w') = send_log (url cfg) (payload_at cfg n) w in
      let (es, w'') = rounds cfg k (n + 1) w' in (e ∷ es, w'')

  -- `main`, up to the signal that ends it after so many rounds.
  pub run_agent : FileConfig → ℕ → W → List (Option Error) × W
  run_agent cfg k w = rounds cfg k 1 w
