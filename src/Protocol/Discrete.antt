-- ===== src/Protocol/Discrete.antt =====
-- Equality of the shared records is decided, as their derived `PartialEq` does.
use dexdeck.Common.{String-discrete, ℕ_discrete}
use dexdeck.Protocol.Diagnostic.{Diagnostic}
use dexdeck.Protocol.Model.{ProjectModel, AndroidModule, Variant, GradleTask}

pub Diagnostic-discrete : Discrete Diagnostic
Diagnostic-discrete = hlevel (String-discrete, ℕ_discrete)

pub Variant-discrete : Discrete Variant
Variant-discrete = hlevel (String-discrete, ℕ_discrete)

pub AndroidModule-discrete : Discrete AndroidModule
AndroidModule-discrete = hlevel (String-discrete, ℕ_discrete, Variant-discrete)

pub GradleTask-discrete : Discrete GradleTask
GradleTask-discrete = hlevel (String-discrete, ℕ_discrete)

pub ProjectModel-discrete : Discrete ProjectModel
ProjectModel-discrete =
    hlevel (
      String-discrete, ℕ_discrete, Diagnostic-discrete, AndroidModule-discrete, GradleTask-discrete,
    )
