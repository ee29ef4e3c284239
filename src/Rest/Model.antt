-- ===== src/Rest/Model.antt =====
-- rec/rest/model.py: what jobs ask for and executors offer. The floating-point fields are only ever
-- compared, and stand here as numbers of some fixed unit.
use ma_sinafadavi_claude.Prelude.{
  ℕ, Bool, true, false, ◌&&◌, List, Str, leb, not, if◌then◌else◌, ◌≡◌, arith,
}

pub record Address : Type 0 where
  pub host : Str
  pub port : ℕ

pub record Capabilities : Type 0 where
  pub memory : ℕ
  pub disk : ℕ
  pub cpu_load : ℕ
  pub cpu_cores : ℕ
  pub cpu_freq : ℕ
  pub has_battery : Bool
  pub power : ℕ

-- the first `res` of is_capable
unfoldable pub has_resources : Capabilities → Capabilities → Bool
has_resources self caps =
    leb caps.memory self.memory
    && (leb caps.disk self.disk
        && (leb self.cpu_load caps.cpu_load
            && (leb caps.cpu_cores self.cpu_cores && leb caps.cpu_freq self.cpu_freq)))

unfoldable pub is_capable : Capabilities → Capabilities → Bool
unfolding has_resources
is_capable self caps =
    (if not caps.has_battery && self.has_battery then false else has_resources self caps)
    && (if self.has_battery then leb caps.power self.power else true)

-- Union[str, tuple[str, str]]
pub data Source : Type 0 where
  named : Str → Source
  placed : Str → Str → Source

pub record JobInfo : Type 0 where
  pub wasm_bin : Source
  pub wasm_bin_is_named : Bool
  pub stdin : Source
  pub stdin_is_named : Bool
  pub job_data : List (Str × Str)
  pub named_data : List (Str × Str)
  pub directories : List Str
  pub args : List Str
  pub env : List (Str × Str)
  pub zip_results : List (Str × Str)
  pub named_results : List (Str × Str)
  pub capabilities : Capabilities
  pub result_addr : Address
  pub delete : Bool

-- A system is capable of what it offers itself, and of all that a system offers which it is
-- capable of.
pub is_capable_trans :
    (a b c : Capabilities)
    → is_capable a b ≡ true
    → is_capable b c ≡ true
    → (is_capable a a ≡ true) × (is_capable a c ≡ true)
unfolding is_capable
is_capable_trans a b c h k = (ground arith, ground arith)
