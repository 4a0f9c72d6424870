-- ===== src/Driver/Lifetime/Balance.antt =====
-- Loading the module (aesd-char-driver/main.c) sets up an empty device or leaves nothing behind.
use embedded_linux.Common.{ℕ, ◌≡◌, refl, true, false, none, [], arith, ◌⊎◌, inl, inr}
use embedded_linux.Circular.{total_entries}
use embedded_linux.Circular.Invariant.{zeroed-IsValid}
use embedded_linux.Driver.{Sys}
use embedded_linux.Driver.Ownership.{IsOwned, log}
use embedded_linux.Driver.Cleanup.Release.{cleanup_device_frees}
use embedded_linux.Driver.Lifetime.{Loaded, Status, success, failure, fresh_device, load, unload}

-- A module that is not loaded: it holds nothing of the kernel's and no memory.
pub record IsUnloaded (m : Loaded) : Type 0 where
  pub no_chrdev : m.chrdev ≡ false
  pub no_cdev : m.cdev ≡ false
  pub no_mutex : m.mutex ≡ false
  pub no_memory : (p : ℕ) → m.sys.heap.block p ≡ none
  pub no_fault : m.sys.heap.fault ≡ false

pub record IsReady (m : Loaded) : Type 0 where
  pub chrdev : m.chrdev ≡ true
  pub cdev : m.cdev ≡ true
  pub mutex : m.mutex ≡ true
  pub owned : IsOwned none m.sys
  pub unlocked : m.sys.dev.locked ≡ false
  pub empty : log m.sys ≡ record { commands = []; pending = [] }

pub fresh-IsOwned :
    (s : Sys)
    → ((p : ℕ) → s.heap.block p ≡ none)
    → s.heap.fault ≡ false
    → IsOwned none (fresh_device s)
unfolding fresh_device total_entries
fresh-IsOwned s empty sound = record {
  ring = zeroed-IsValid;
  sound = sound;
  owned = λ p. ground (arith, empty p);
  backed = (refl, (refl, (refl, (refl, (refl, (refl, (refl, (refl, (refl, (refl, tt))))))))));
  pending = refl;
  unused = (refl, (refl, (refl, (refl, (refl, (refl, (refl, (refl, (refl, (refl, tt))))))))));
}

-- From an unloaded module, loading either succeeds, both requests to the kernel being granted, and
-- the device is registered, empty, with its mutex free and its memory in order; or one of the
-- requests is refused, its error is returned, and the module is unloaded still.
pub load_lem :
    (m : Loaded) (alloc add : Status)
    → IsUnloaded m
    → ((alloc ≡ success)
        × (add ≡ success)
        × ((load m alloc add).1 ≡ success)
        × IsReady (load m alloc add).0)
      ⊎ ((e : ℕ) × ((alloc ≡ failure e) ⊎ (add ≡ failure e))
          × ((load m alloc add).1 ≡ failure e)
          × IsUnloaded (load m alloc add).0)
unfolding load total_entries
load_lem m success success u = inl (
  refl,
  refl,
  refl,
  record {
    chrdev = refl;
    cdev = refl;
    mutex = refl;
    owned = fresh-IsOwned m.sys u.no_memory u.no_fault;
    unlocked = refl;
    empty = refl;
  },
)
load_lem m success (failure e) u = inr (
  e,
  inr refl,
  refl,
  record {
    no_chrdev = refl;
    no_cdev = u.no_cdev;
    no_mutex = refl;
    no_memory = u.no_memory;
    no_fault = u.no_fault;
  },
)
load_lem m (failure e) add u = inr (e, inl refl, refl, u)

-- Unloading a module whose device's memory is in order leaves no registration, no mutex and no
-- block of memory, and no address was freed twice.
pub unload-IsUnloaded : (m : Loaded) → IsOwned none m.sys → IsUnloaded (unload m)
unfolding unload
unload-IsUnloaded m o =
    let (gone, sound, _, _) = cleanup_device_frees {s = m.sys} o in
    record { no_chrdev = refl; no_cdev = refl; no_mutex = refl; no_memory = gone; no_fault = sound }
