-- ===== src/Storage/Hoare.antt =====
-- What an operation on a disk guarantees: from a disk with `Before`, one that succeeds leaves a disk
-- with `After`, one that fails leaves a disk with `Failed`.
use dexdeck.Common.{◌≡◌, subst}
use dexdeck.Common.Results.{Result, ok, err}
use dexdeck.Storage.{StorageError}
use dexdeck.Storage.Files.{OnDisk, ◌>>=◌, continue_with, renamed, mapped, change}

abbrev pub Outcome :
    {Disk E A : Type 0} (After : A → Disk → Type 0) (Failed : Disk → Type 0)
    → Result E A × Disk
    → Type 0
Outcome After Failed (ok a, disk) = After a disk
Outcome After Failed (err failure, disk) = Failed disk

pub record Leaves {Disk E A : Type 0} (After : A → Disk → Type 0) (Failed : Disk → Type 0)
    (r : Result E A × Disk) : Type 0 where
  pub outcome : Outcome After Failed r

module _ {Disk : Type 0} where
  abbrev pub Does :
      {E A : Type 0} (Before : Disk → Type 0) (operation : OnDisk Disk E A)
      (After : A → Disk → Type 0) (Failed : Disk → Type 0)
      → Type 0
  Does Before operation After Failed =
      (disk : Disk) → Before disk → Leaves After Failed (operation disk)

  Leaves-continue :
      {A B : Type 0} {Between : A → Disk → Type 0} {After : B → Disk → Type 0}
      {Failed : Disk → Type 0} (r : Result StorageError A × Disk)
      (later : A → OnDisk Disk StorageError B)
      → Leaves Between Failed r
      → ((a : A) → Does (Between a) (later a) After Failed)
      → Leaves After Failed (continue_with later r)
  Leaves-continue (ok a, disk) later first rest = rest a disk first.outcome
  Leaves-continue (err failure, disk) later first rest = record { outcome = first.outcome }

  -- One operation after the other.
  pub chain :
      {A B : Type 0} {Before : Disk → Type 0} {Between : A → Disk → Type 0}
      {After : B → Disk → Type 0} {Failed : Disk → Type 0} (first : OnDisk Disk StorageError A)
      (later : A → OnDisk Disk StorageError B)
      → Does Before first Between Failed
      → ((a : A) → Does (Between a) (later a) After Failed)
      → Does Before (first >>= later) After Failed
  chain first later h k disk before = Leaves-continue (first disk) later (h disk before) k

  Leaves-renamed :
      {E A : Type 0} {After : A → Disk → Type 0} {Failed : Disk → Type 0} (f : E → StorageError)
      (r : Result E A × Disk)
      → Leaves After Failed r
      → Leaves After Failed (renamed f r)
  Leaves-renamed f (ok a, disk) h = record { outcome = h.outcome }
  Leaves-renamed f (err e, disk) h = record { outcome = h.outcome }

  pub mapped-Does :
      {E A : Type 0} {Before : Disk → Type 0} {After : A → Disk → Type 0} {Failed : Disk → Type 0}
      (f : E → StorageError) (operation : OnDisk Disk E A)
      → Does Before operation After Failed
      → Does Before (mapped f operation) After Failed
  mapped-Does f operation h disk before = Leaves-renamed f (operation disk) (h disk before)

  pub Leaves-look :
      {A : Type 0} {Keeps : Disk → Type 0} (r : Result StorageError A) (disk : Disk)
      → Keeps disk
      → Leaves (λ a. Keeps) Keeps (r, disk)
  Leaves-look (ok a) disk h = record { outcome = h }
  Leaves-look (err failure) disk h = record { outcome = h }

  Leaves-weaken :
      {E A : Type 0} {After : A → Disk → Type 0} {Failed Weaker : Disk → Type 0}
      → ((disk : Disk) → Failed disk → Weaker disk)
      → (r : Result E A × Disk) → Leaves After Failed r
      → Leaves After Weaker r
  Leaves-weaken f (ok a, disk) h = record { outcome = h.outcome }
  Leaves-weaken f (err failure, disk) h = record { outcome = f disk h.outcome }

  pub weaken :
      {E A : Type 0} {Before : Disk → Type 0} {After : A → Disk → Type 0}
      {Failed Weaker : Disk → Type 0} (operation : OnDisk Disk E A)
      → ((disk : Disk) → Failed disk → Weaker disk)
      → Does Before operation After Failed
      → Does Before operation After Weaker
  weaken operation f h disk before = Leaves-weaken f (operation disk) (h disk before)

  pub succeeded :
      {E A : Type 0} {After : A → Disk → Type 0} {Failed : Disk → Type 0} (r : Result E A × Disk)
      {a : A} {disk : Disk}
      → Leaves After Failed r
      → r ≡ (ok a, disk)
      → After a disk
  succeeded {After = After} {Failed = Failed} r h e = (subst (Leaves After Failed) e h).outcome

  pub failed :
      {E A : Type 0} {After : A → Disk → Type 0} {Failed : Disk → Type 0} (r : Result E A × Disk)
      {e : E} {disk : Disk}
      → Leaves After Failed r
      → r ≡ (err e, disk)
      → Failed disk
  failed {After = After} {Failed = Failed} r h e = (subst (Leaves After Failed) e h).outcome

  -- What cannot fail.
  pub change-Does :
      {Before Failed : Disk → Type 0} {After : Unit {0} → Disk → Type 0} (f : Disk → Disk)
      → ((disk : Disk) → Before disk → After tt (f disk))
      → Does Before (change f) After Failed
  change-Does f h disk before = record { outcome = h disk before }
