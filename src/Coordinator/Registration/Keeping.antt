-- ===== src/Coordinator/Registration/Keeping.antt =====
-- A registration keeps the keys and what was started.
use assemblage.Prelude.{
  ℕ, ◌≡◌, refl, Bool, true, false, subst, sym, Option, Text, Bool-cases, inl, inr,
}
use assemblage.Messages.{BuilderRegistration, ScraperControlRequest}
use assemblage.Db.Session.{World, Result, ok, err}
use assemblage.Store.Options.{register_build_opt}
use assemblage.Store.Scrapers.{Window, register_scraper, update_scraper}
use assemblage.Store.Scrapers.Keeping.{register_scraper-Moves, update_scraper-Moves}
use assemblage.Store.Moves.{Moves, register_build_opt-Moves}
use assemblage.Coordinator.Manager.{Manager}
use assemblage.Coordinator.Registration.{
  handle_builder_registration, after_register, Registry, after_setup, after_sync, is_setup,
  or_blank, handle_scraper_registration,
}

after_register-world :
    (sends : Bool) (m : Manager) (r : Result ℕ) (w : World) → (after_register sends m r w).world ≡ w
unfolding after_register
after_register-world sends m (err e) w = refl
after_register-world true m (ok id) w = refl
after_register-world false m (ok id) w = refl

pub handle_builder_registration-Moves :
    (sends : Bool) (row : ℕ) (msg : BuilderRegistration) (m : Manager) (w : World)
    → Moves w (handle_builder_registration sends row msg m w).world
unfolding handle_builder_registration
handle_builder_registration-Moves sends row msg m w =
    subst (Moves w) (sym (after_register-world sends m _ (register_build_opt row msg w).1))
      (register_build_opt-Moves row msg w)

after_setup-world :
    (sends : Bool) (reply : Text) (q : Registry) (r : Result Window) (w : World)
    → (after_setup sends reply q r w).world ≡ w
unfolding after_setup
after_setup-world sends reply q (err e) w = refl
after_setup-world true reply q (ok c) w = refl
after_setup-world false reply q (ok c) w = refl

after_sync-world :
    (sends : Bool) (q : Registry) (r : Result Unit) (w : World) → (after_sync sends q r w).world ≡ w
unfolding after_sync
after_sync-world sends q (err e) w = refl
after_sync-world true q (ok u) w = refl
after_sync-world false q (ok u) w = refl

pub handle_scraper_registration-Moves :
    (sends : Bool) (row : ℕ) (msg : ScraperControlRequest) (id : Option Text) (reply : Text)
    (q : Registry) (w : World)
    → Moves w (handle_scraper_registration sends row msg id reply q w).world
unfolding handle_scraper_registration
handle_scraper_registration-Moves sends row msg id reply q w =
    elim (Bool-cases (is_setup msg.message_type)) [
      | inl e ↦
          rw (e, handle_scraper_registration)
            (subst (Moves w)
              (sym (
                after_setup-world sends reply q _
                  (register_scraper row (or_blank id) msg.start_time msg.end_time w).1))
              (register_scraper-Moves row (or_blank id) msg.start_time msg.end_time w))
      | inr e ↦
          rw (e, handle_scraper_registration)
            (subst (Moves w)
              (sym (
                after_sync-world sends q _
                  (update_scraper row (or_blank id) msg.start_time msg.end_time w).1))
              (update_scraper-Moves row (or_blank id) msg.start_time msg.end_time w))
    ]
