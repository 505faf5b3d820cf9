-- ===== src/LockableAutoPtr.antt =====
-- include/libcwd/lockable_auto_ptr.h. The pointers of a program are numbered, and so are the objects
-- that they point to; `delete` of an object that is not alive is `none`.
pub mod Ownership
pub mod Copying
mod Samples
use libcwd.Base.{
  ℕ, Bool, true, false, not, ◌&&◌, Option, none, some, List, [], ◌∷◌, ◌==◌, if◌then◌else◌, ◌>>=◌,
}

pub record LockableAutoPtr : Type 0 where
  pub ptr : Option ℕ
  pub locked : Bool
  pub owner : Bool

-- The pointers that exist, and the objects that are alive.
pub record Heap : Type 0 where
  pub pointers : ℕ → Option LockableAutoPtr
  pub alive : ℕ → Bool

abbrev pub set {ℓ} : {A : Type ℓ} → (ℕ → A) → ℕ → A → ℕ → A
set f k v j = if j == k then v else f j

abbrev pub put : ℕ → LockableAutoPtr → Heap → Heap
put k p h = record h { pointers = set h.pointers k (some p) }

-- delete ptr; NULL is let be.
unfoldable pub delete : Option ℕ → Heap → Option Heap
delete none h = some h
delete (some x) h = if h.alive x then some (record h { alive = set h.alive x false }) else none

abbrev pub is_some : Option ℕ → Bool
is_some none = false
is_some (some x) = true

-- lockable_auto_ptr(X* p)
unfoldable pub construct : ℕ → Option ℕ → Heap → Option Heap
construct k p h = some (put k (record { ptr = p; locked = false; owner = is_some p }) h)

-- lockable_auto_ptr(lockable_auto_ptr const& r): the new pointer `k` from the pointer `j`.
unfoldable pub copy : ℕ → ℕ → Heap → Option Heap
copy k j h = do
  r ← h.pointers j
  let new : LockableAutoPtr = record {
    ptr = r.ptr;
    locked = false;
    owner = r.owner && not r.locked;
  }
  some (put k new (if not r.locked then put j (record r { owner = false }) h else h))

-- The deletion in the destructor, in `reset` and in operator=.
unfoldable pub delete_if_owner : LockableAutoPtr → Heap → Option Heap
delete_if_owner p h = if p.owner then delete p.ptr h else some h

-- operator=(lockable_auto_ptr const& r): `k` is this, and `j` is r.
unfoldable pub assign : ℕ → ℕ → Heap → Option Heap
assign k j h = do
  p ← h.pointers k
  r ← h.pointers j
  if j == k
      then some h
      else delete_if_owner p h >>= λ h'.
          (if r.locked
            then some (put k (record p { ptr = r.ptr; owner = false }) h')
            else some (
                put j (record r { owner = false })
                  (put k (record p { ptr = r.ptr; owner = r.owner }) h')))

-- ~lockable_auto_ptr()
unfoldable pub destruct : ℕ → Heap → Option Heap
destruct k h = do
  p ← h.pointers k
  h' ← delete_if_owner p h
  some (record h' { pointers = set h'.pointers k none })

unfoldable pub reset : ℕ → Heap → Option Heap
reset k h = do
  p ← h.pointers k
  h' ← delete_if_owner p h
  some (put k (record p { ptr = none; owner = false }) h')

-- release(), lock() and unlock(); LIBCWD_ASSERT(is_owner()) does nothing in a release build.
unfoldable pub release : ℕ → Heap → Option Heap
release k h = do p ← h.pointers k; some (put k (record p { owner = false }) h)

unfoldable pub lock : ℕ → Heap → Option Heap
lock k h = do p ← h.pointers k; some (put k (record p { locked = true }) h)

unfoldable pub unlock : ℕ → Heap → Option Heap
unlock k h = do p ← h.pointers k; some (put k (record p { locked = false }) h)
