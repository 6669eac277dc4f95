-- ===== src/Bpf/Load.antt =====
-- bpf/src/lib.rs: `BpfBuilder::load`.
pub mod Balance
use rust_bpf.Prelude.{ℕ, List, [], ◌∷◌, ◌++◌, Option, if◌then◌else◌}
use rust_bpf.Text.{Text}
use rust_bpf.Probes.Probe.{Probe}
use rust_bpf.Probes.Attach.Attr.{Bindings}
use rust_bpf.Probes.Attach.Kernel.{Kernel, M, ◌>>=◌, object, pure, throw, unwrap, or_throw}
use rust_bpf.Probes.Attach.Open.{holding, attach}
use rust_bpf.Bpf.{Object}
use rust_bpf.Bpf.Builder.{BpfBuilder}

module _ (k : Kernel) (b : Bindings) (obj : Object) (child_pid : Option ℕ) where
  -- The body of the loop.
  unfoldable pub load_one : Probe → Text → M (List ℕ)
  unfolding attach
  load_one p entry = do
    found ← or_throw (obj.prog entry) object
    program ← unwrap found
    attach k b p program child_pid

  -- The loop: the probes that are attached so far are dropped if a later one fails.
  unfoldable pub load_all : List (Probe × Text) → List ℕ → M (List ℕ)
  unfolding load_one holding
  load_all [] fds = pure fds
  load_all ((p, entry) ∷ probes) fds = do
    new ← holding k fds (load_one p entry)
    load_all probes (fds ++ new)

-- Loading the object and attaching its probes in their order.
unfoldable pub load : Kernel → Bindings → Object → BpfBuilder → M (List ℕ)
unfolding load_all
load k b obj builder =
    if obj.loads then load_all k b obj builder.child_pid builder.probes [] else throw object
