-- ===== src/Ucx.antt =====
-- The boundary to UCX, which the repository only calls. A handle, pointer or descriptor is a number,
-- and 0 is null. Each function of the model takes what the calls return as arguments, and gives the
-- calls it makes, in their order, as a list of events; so nothing is assumed of UCX here.
use ucxpp.Base.{
  ℕ, ◌+◌, arith, if◌then◌else◌, List, [], ◌∷◌, ◌++◌, Option, Bool, String, ◌≡◌, true, false,
}
use ucxpp.Errors.{Status, Result, ok, err, check_ucs_status}

-- `ucp_atomic_op_t`
pub data AtomicOp : Type 0 where
  op_add op_and op_or op_xor op_swap op_cswap : AtomicOp

-- `ucp_mem_map_params_t`: a field that `field_mask` leaves out is `none`; `allocate` is the flag
-- UCP_MEM_MAP_ALLOCATE.
pub record MemMapParams : Type 0 where
  pub address : Option ℕ
  pub length : Option ℕ
  pub allocate : Bool

-- `ucp_request_param_t`, by what `op_attr_mask` says is set. `user_data` is the address of the
-- awaitable.
pub record RequestParam : Type 0 where
  pub callback : Bool
  pub user_data : Option ℕ
  pub multi_send : Bool
  pub datatype : Option ℕ
  pub reply_buffer : Option ℕ
  pub recv_info : Bool

-- The non-blocking operations, with the arguments of the `ucp_…_nbx` call.
pub data Post : Type 0 where
  stream_send : (ep buffer length : ℕ) → Post
  stream_recv : (ep buffer length : ℕ) → Post
  tag_send : (ep buffer length tag : ℕ) → Post
  tag_recv : (worker buffer length tag mask : ℕ) → Post
  rma_put : (ep buffer length remote_addr rkey : ℕ) → Post
  rma_get : (ep buffer length remote_addr rkey : ℕ) → Post
  atomic : (ep : ℕ) → AtomicOp → (buffer count remote_addr rkey : ℕ) → Post
  ep_flush : (ep : ℕ) → Post
  ep_close : (ep : ℕ) → Post
  worker_flush : (worker : ℕ) → Post

-- What the source does that can be seen from outside. `undefined` stands for a null pointer that is
-- followed, a value that was never set and is read, or an assertion that fails.
pub data Event : Type 0 where
  ucp_config_read : Event
  ucp_config_modify : (config : ℕ) → (name value : String) → Event
  ucp_config_print : (config : ℕ) → Event
  ucp_config_release : (config : ℕ) → Event
  ucp_init : (features : ℕ) → (mt_workers_shared : Bool) → (config : ℕ) → Event
  ucp_cleanup : (context : ℕ) → Event
  ucp_worker_create : (context : ℕ) → Event
  ucp_worker_get_efd : (worker : ℕ) → Event
  ucp_worker_get_address : (worker : ℕ) → Event
  ucp_worker_release_address : (worker address : ℕ) → Event
  ucp_worker_progress : (worker : ℕ) → Event
  ucp_worker_wait : (worker : ℕ) → Event
  ucp_worker_arm : (worker : ℕ) → Event
  ucp_worker_fence : (worker : ℕ) → Event
  ucp_worker_destroy : (worker : ℕ) → Event
  ucp_mem_map : (context : ℕ) → MemMapParams → Event
  ucp_mem_query : (mem : ℕ) → Event
  ucp_mem_unmap : (context mem : ℕ) → Event
  ucp_rkey_pack : (context mem : ℕ) → Event
  ucp_rkey_buffer_release : (buffer : ℕ) → Event
  ucp_ep_rkey_unpack : (ep buffer : ℕ) → Event
  ucp_rkey_destroy : (rkey : ℕ) → Event
  ucp_ep_create : (worker : ℕ) → (address : List ℕ) → (handler_arg : ℕ) → Event
  ucp_ep_print_info : (ep : ℕ) → Event
  ucp_ep_close_nb : (ep : ℕ) → Event
  ucp_request_free : (request : ℕ) → Event
  ucp_request_cancel : (worker request : ℕ) → Event
  post : Post → RequestParam → Event
  resume : (coroutine : ℕ) → Event
  undefined : Event

-- A run: the events, and the value returned or the exception thrown behind them.
abbrev pub Run {ℓ} : Type ℓ → Type ℓ
Run A = List Event × Result A

infixl 5 ◌>>=◌ ◌>>◌
abbrev pub ◌>>=◌ {ℓ κ} : {A : Type ℓ} {B : Type κ} → Run A → (A → Run B) → Run B
(l, ok a) >>= f = (l ++ (f a).0, (f a).1)
(l, err e) >>= f = (l, err e)

abbrev pub ◌>>◌ {ℓ} : {B : Type ℓ} → Run (Unit {0}) → Run B → Run B
m >> k = m >>= λ _. k

abbrev pub pure {ℓ} : {A : Type ℓ} → A → Run A
pure a = ([], ok a)

abbrev pub emit : Event → Run (Unit {0})
emit c = (c ∷ [], ok tt)

abbrev pub check : Status → String → Run (Unit {0})
check s message = ([], check_ucs_status s message)

-- What the destructor of a local object does when its scope is left, by a return or an exception.
abbrev pub finally {ℓ} : {A : Type ℓ} → Run A → List Event → Run A
finally m l = (m.0 ++ l, m.1)

-- How many events of a run satisfy a test.
abbrev pub count_if : (Event → Bool) → List Event → ℕ
count_if p [] = 0
count_if p (c ∷ l) = (if p c then 1 else 0) + count_if p l

abbrev pub is_undefined : Event → Bool
is_undefined undefined = true
is_undefined _ = false

pub count_if-append :
    (p : Event → Bool) (l m : List Event) → count_if p (l ++ m) ≡ count_if p l + count_if p m
count_if-append p [] m = omega arith
count_if-append p (c ∷ l) m = omega (arith, count_if-append p l m)
