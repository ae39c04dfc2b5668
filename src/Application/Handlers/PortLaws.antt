-- ===== src/Application/Handlers/PortLaws.antt =====
-- What the handlers rely on of the backends behind their traits.
use caly.Base.{Bool, ℕ, ◌≡◌}
use caly.Base.Result.{Result, err}
use caly.Domain.Text.{Text}
use caly.Application.Reporting.{ActorFailure}
use caly.Application.Reporting.Clamped.{Fits}
use caly.Application.Ports.{Backends, PreparedConfig}
use caly.Domain.State.{CoreKind, ProxyMode}
use caly.Application.Ports.{RefreshMode}

-- A failure that an answer carries has texts within the bounds of their type.
abbrev pub Fitting : {A : Type 0} → Result ActorFailure A → Type 0
Fitting r = (f : ActorFailure) → r ≡ err f → Fits f

module _ {ℓ} {W : Type ℓ} where
  -- The backends keep to the type of a failure's texts.
  pub record FittingFailures (ports : Backends W) : Type ℓ where
    pub stop_fits : (w : W) → Fitting (ports.lifecycle.stop_core w).1
    pub switch_fits : (k : CoreKind) (w : W) → Fitting (ports.lifecycle.switch_to k w).1
    pub render_fits : (c : ℕ) (w : W) → Fitting (ports.config.parse_and_render c w).1
    pub commit_fits : (p : PreparedConfig) (w : W) → Fitting (ports.config.commit_candidate p w).1
    pub choose_fits : (n : ℕ) (w : W) → Fitting (ports.core.choose_proxy n w).1
    pub choose_group_fits :
        (group member : Text) (w : W) → Fitting (ports.core.choose_proxy_group group member w).1
    pub close_fits : (w : W) → Fitting (ports.core.close_connections w).1
    pub mode_fits : (m : ProxyMode) (w : W) → Fitting (ports.core.change_mode m w).1
    pub proxy_fits : (b : Bool) (w : W) → Fitting (ports.platform.engage_proxy b w).1
    pub pac_fits : (url : Text) (w : W) → Fitting (ports.platform.engage_pac url w).1
    pub tun_fits : (b : Bool) (w : W) → Fitting (ports.tun.engage_tun b w).1
    pub refresh_fits :
        (id : ℕ) (mode : RefreshMode) (w : W) → Fitting (ports.subscription.refresh id mode w).1
