-- ===== src/Nodes/Restarting.antt =====
-- When a daemon set is restarted.
use composable_resource_oper.Common.{String, ℕ, ◌≤◌, ◌<◌, ◌+◌, ◌-◌, Option, some, ◌≡◌, arith}
use composable_resource_oper.Nodes.{
  DaemonSet, skipped, restarted, restart_stable, restart_daemonset,
}

-- All its pods are scheduled where they should be, and are ready.
abbrev pub Settled : DaemonSet → Type 0
Settled d =
    (0 < d.desired_number_scheduled)
    × (d.desired_number_scheduled ≤ d.number_ready)
    × (d.desired_number_scheduled ≤ d.current_number_scheduled)
    × (d.number_unavailable ≡ 0)
    × (d.number_misscheduled ≡ 0)

module _ (parse : String → Option ℕ) (format : ℕ → String) where
  -- Only a settled daemon set is restarted, and only if no restart was noted in the last ten
  -- seconds; the restart notes its own time and changes nothing else.
  pub restart_daemonset-Settled :
      (now : ℕ) (d d' : DaemonSet)
      → restart_daemonset parse format now d ≡ restarted d'
      → Settled d
        × (d' ≡ record d { restarted_at = some (format now) })
        × ((text : String) (last : ℕ)
            → d.restarted_at ≡ some text
            → parse text ≡ some last
            → 10 < now - last)
  unfolding restart_daemonset restart_stable
  restart_daemonset-Settled now d d' h =
      (ground (arith, h), ground (arith, h), λ text last s p. ground (arith, h))

  -- A daemon set that was restarted is not restarted again in the next ten seconds, where a time that
  -- was written is read back.
  restart_daemonset-once :
      (now later : ℕ) (d d' : DaemonSet)
      → parse (format now) ≡ some now
      → restart_daemonset parse format now d ≡ restarted d'
      → later ≤ now + 10
      → restart_daemonset parse format later d' ≡ skipped
  unfolding restart_daemonset restart_stable
  restart_daemonset-once now later d d' p h soon = ground (arith, h)
