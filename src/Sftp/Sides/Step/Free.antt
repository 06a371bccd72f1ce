-- ===== src/Sftp/Sides/Step/Free.antt =====
-- A pane that connects has no connection yet, and which operations open one.
use connexia.Common.{ℕ, ◌≡◌, refl, arith, Option, ◌∷◌, Text}
use connexia.Sftp.Sides.{
  Which, left_side, right_side, Screen, begin_connect, refuse, fail, client_opened, ready,
  reset_side,
}
use connexia.Sftp.Sides.Step.Handles.{IsFree}

-- A side with a connection, or without one, after each operation.
abbrev pub AreFree : Screen → Type 0
AreFree s = IsFree s.left × IsFree s.right

pub AreFree-reset_side : (w : Which) (s : Screen) → AreFree s → AreFree (reset_side w s)
unfolding reset_side
AreFree-reset_side left_side s f = (λ _. refl, f.1)
AreFree-reset_side right_side s f = (f.0, λ _. refl)

pub AreFree-begin_connect :
    (w : Which) (host : ℕ) (s : Screen) → AreFree s → AreFree (begin_connect w host s)
unfolding begin_connect reset_side
AreFree-begin_connect left_side host s f = (λ _. refl, f.1)
AreFree-begin_connect right_side host s f = (f.0, λ _. refl)

pub AreFree-refuse :
    (w : Which) (host : ℕ) (handle : Option ℕ) (s : Screen)
    → AreFree s
    → AreFree (refuse (record { which = w; host = host; handle = handle }) s)
unfolding refuse reset_side
AreFree-refuse left_side host handle s f = ground arith
AreFree-refuse right_side host handle s f = ground arith

pub AreFree-fail :
    (message : Text) (w : Which) (host : ℕ) (handle : Option ℕ) (s : Screen)
    → AreFree s
    → AreFree (fail message (record { which = w; host = host; handle = handle }) s)
unfolding fail
AreFree-fail message left_side host handle s f = ground arith
AreFree-fail message right_side host handle s f = ground arith

pub AreFree-client_opened :
    (g : ℕ) (w : Which) (host : ℕ) (handle : Option ℕ) (s : Screen)
    → AreFree s
    → AreFree (client_opened g (record { which = w; host = host; handle = handle }) s)
unfolding client_opened
AreFree-client_opened g left_side host handle s f = ground arith
AreFree-client_opened g right_side host handle s f = ground arith

pub AreFree-ready :
    (g : ℕ) (w : Which) (host : ℕ) (handle : Option ℕ) (s : Screen)
    → AreFree s
    → AreFree (ready g (record { which = w; host = host; handle = handle }) s)
unfolding ready
AreFree-ready g left_side host handle s f = ground arith
AreFree-ready g right_side host handle s f = ground arith

pub opened-refuse :
    (w : Which) (host : ℕ) (handle : Option ℕ) (s : Screen)
    → (refuse (record { which = w; host = host; handle = handle }) s).opened ≡ s.opened
unfolding refuse reset_side
opened-refuse left_side host handle s = ground arith
opened-refuse right_side host handle s = ground arith

pub opened-fail :
    (message : Text) (w : Which) (host : ℕ) (handle : Option ℕ) (s : Screen)
    → (fail message (record { which = w; host = host; handle = handle }) s).opened ≡ s.opened
unfolding fail
opened-fail message left_side host handle s = ground arith
opened-fail message right_side host handle s = ground arith

pub opened-ready :
    (g : ℕ) (w : Which) (host : ℕ) (handle : Option ℕ) (s : Screen)
    → (ready g (record { which = w; host = host; handle = handle }) s).opened ≡ s.opened
unfolding ready
opened-ready g left_side host handle s = ground arith
opened-ready g right_side host handle s = ground arith

pub opened-client_opened :
    (g : ℕ) (w : Which) (host : ℕ) (handle : Option ℕ) (s : Screen)
    → (client_opened g (record { which = w; host = host; handle = handle }) s).opened ≡ g ∷ s.opened
unfolding client_opened
opened-client_opened g left_side host handle s = ground arith
opened-client_opened g right_side host handle s = ground arith
