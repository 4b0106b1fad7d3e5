-- ===== src/Let/Types.antt =====
-- sandboxd-let/model/types.go. A nil error is `none`; times are nanoseconds.
use Prim.Native.String.{◌++◌ as append}
use go_gvisor_containerd_let.Base.{
  ℕ, ℤ, String, Bool, Option, none, some, List, [], ◌∷◌, decimal, suc, pos, negsuc,
}

-- An `error`: `none` is nil.
abbrev pub Failure : Type 0
Failure = Option String

abbrev pub or_else : Failure → Failure → Failure
or_else none rest = rest
or_else (some e) rest = some e

-- `if bad { return errors.New(msg) }`, and the code behind it.
abbrev pub fail_if : Bool → String → Failure → Failure
fail_if Bool.true msg rest = some msg
fail_if Bool.false msg rest = rest

-- A value and an error, of which Go returns both: one of the two is there.
pub data Outcome (A : Type 0) : Type 0 where
  done : A → Outcome A
  failed : String → Outcome A

-- `if err != nil { return err }`, in a function that returns only an error.
abbrev pub or_fail : {A : Type 0} → Outcome A → (A → Failure) → Failure
or_fail (done a) k = k a
or_fail (failed e) k = some e

-- The same, in a function that returns a value too.
infixl 5 ◌>>=◌
abbrev pub ◌>>=◌ : {A B : Type 0} → Outcome A → (A → Outcome B) → Outcome B
done a >>= k = k a
failed e >>= k = failed e

-- The pieces of a formatted text.
unfoldable pub concat : List String → String
concat [] = ""
concat (s ∷ ss) = append s (concat ss)

-- `%d`.
unfoldable pub decimal_int : ℤ → String
decimal_int (pos n) = decimal n
decimal_int (negsuc n) = append "-" (decimal (suc n))

pub record ResourceSpec : Type 0 where
  pub cpu : String
  pub memory : String

pub record PortMapping : Type 0 where
  pub host_port : ℤ
  pub container_port : ℤ
  pub protocol : String

pub record CreateContainerRequest : Type 0 where
  pub name : String
  pub image : String
  pub args : List String
  pub env : List String
  pub work_dir : String
  pub resource : ResourceSpec

pub record CreateSandboxRequest : Type 0 where
  pub id : String
  pub egress : Bool
  pub containers : List CreateContainerRequest
  pub ports : List PortMapping

pub record ContainerState : Type 0 where
  pub id : String
  pub name : String
  pub phase : String
  pub error : String
  pub image : String
  pub args : List String
  pub env : List String
  pub resource : ResourceSpec
  pub task_pid : ℕ
  pub runtime : String
  pub task_status : String

-- A sandbox's state. The map of containers is the list of its values: the key is `name`.
pub record Sandbox : Type 0 where
  pub id : String
  pub phase : String
  pub error : String
  pub namespace : String
  pub ip : String
  pub subnet_cidr : String
  pub bridge_name : String
  pub egress : Bool
  pub ports : List PortMapping
  pub containers : List ContainerState
  pub pause_id : String
  pub cni_conf_path : String
  pub created_at : ℕ
  pub updated_at : ℕ

pub record ResourceLimits : Type 0 where
  pub memory_bytes : ℤ
  pub cpu_quota : ℤ
  pub cpu_period : ℕ
  pub pids_limit : ℤ

pub record NodeResourceSnapshot : Type 0 where
  pub capacity_cpu_milli : ℤ
  pub capacity_memory_bytes : ℤ
  pub allocatable_cpu_milli : ℤ
  pub allocatable_memory : ℤ
  pub used_cpu_milli : ℤ
  pub used_memory_bytes : ℤ
  pub available_cpu_milli : ℤ
  pub available_memory : ℤ
  pub max_alloc_percent : ℤ
  pub updated_at : ℕ
