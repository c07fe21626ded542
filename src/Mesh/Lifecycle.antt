-- ===== src/Mesh/Lifecycle.antt =====
-- What runs after Join and after Leave (mesh/mesh.go; Start and StopWithTimeout of membership/membership.go),
-- for every outcome of the calls that can fail.
use gossip_mesh.Base.{◌≡◌, arith, Bool, true, false, not, ◌&&◌, if◌then◌else◌}

-- Which calls succeed: vivaldi.NewClient, memberlistquic.New, memberlist.Create, the application transport's
-- New, the extension's Start, memberlist's Leave and Shutdown, and the QUIC transport's Shutdown.
pub record Outcomes : Type 0 where
  pub vivaldi_client : Bool
  pub tls_given : Bool
  pub quic_transport : Bool
  pub create : Bool
  pub transport : Bool
  pub discovery : Bool
  pub leave_list : Bool
  pub shutdown_list : Bool
  pub shutdown_quic : Bool

pub record Running : Type 0 where
  pub quic : Bool
  pub list : Bool
  pub transport : Bool
  -- The loop of the engine's Run.
  pub engine : Bool
  pub extension : Bool
  pub context : Bool

abbrev pub nothing : Running
nothing = record {
  quic = false;
  list = false;
  transport = false;
  engine = false;
  extension = false;
  context = false;
}

module _ (w : Outcomes) where
  -- Start, and whether it succeeds.
  unfoldable pub start : Running → Running × Bool
  start r =
      if not w.vivaldi_client
      then (r, false)
      else if not w.tls_given
      then (r, false)
      else if not w.quic_transport
      then (r, false)
      else if not w.create
      then (record r { quic = not w.shutdown_quic }, false)
      else (record r { quic = true; list = true }, true)

  abbrev shutdown_transport : Running → Running × Bool
  shutdown_transport r =
      if r.quic then (record r { quic = not w.shutdown_quic }, w.shutdown_quic) else (r, true)

  unfoldable pub stop_with_timeout : Running → Running × Bool
  stop_with_timeout r =
      if r.list
      then (if not w.leave_list
          then (r, false)
          else if not w.shutdown_list
          then (r, false)
          else shutdown_transport (record r { list = false }))
      else shutdown_transport r

  -- Join, with an extension or without one: what runs afterwards, and whether it succeeds. The engine is made,
  -- and its Run is not called.
  unfoldable pub join : Bool → Running × Bool
  join has_extension =
      let (r, ok) = start (record nothing { context = true }) in
      let up : Running = record r { transport = true } in
      if not w.tls_given
      then (nothing, false)
      else if not ok
      then (record r { context = false }, false)
      else if not w.transport
      then (record (stop_with_timeout r).0 { context = false }, false)
      else if has_extension && not w.discovery
      then (
        record (stop_with_timeout (record up { transport = false })).0 { context = false },
        false,
      )
      else (record up { extension = has_extension }, true)

  unfoldable pub leave : Running → Running × Bool
  leave r = stop_with_timeout (record r { extension = false; context = false; transport = false })

  -- If memberlist can leave and shut down, and the QUIC transport can shut down, a Join that fails leaves nothing
  -- running, whichever call fails. After one that succeeds memberlist, the two transports and the context run,
  -- and the extension if there is one; the engine's Run does not. Leave then leaves nothing running.
  pub join_lem :
      (has_extension : Bool)
      → w.leave_list ≡ true
      → w.shutdown_list ≡ true
      → w.shutdown_quic ≡ true
      → ((join has_extension).1 ≡ false → (join has_extension).0 ≡ nothing)
        × ((join has_extension).1 ≡ true
            → ((join has_extension).0 ≡ record {
              quic = true;
              list = true;
              transport = true;
              engine = false;
              extension = has_extension;
              context = true;
            })
              × ((leave (join has_extension).0).0 ≡ nothing))
  unfolding join start stop_with_timeout leave
  join_lem has_extension can_leave can_stop can_close =
      ground (arith, can_leave, can_stop, can_close)

  -- If memberlist's Leave fails, the mesh's Leave returns its error with memberlist and the QUIC
  -- transport below it still running.
  pub leave_failed :
      (has_extension : Bool)
      → (join has_extension).1 ≡ true
      → w.leave_list ≡ false
      → let (r, ok) = leave (join has_extension).0 in
        (ok ≡ false) × (r.list ≡ true) × (r.quic ≡ true)
  unfolding join start stop_with_timeout leave
  leave_failed has_extension joined failed = ground (arith, joined, failed)
