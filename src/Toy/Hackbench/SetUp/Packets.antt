-- ===== src/Toy/Hackbench/SetUp/Packets.antt =====
-- How many packets a receiver of toy/hackbench.c takes in an endless run, against what the senders
-- of its group write to it.
use linux_scheduler_comparis.Base.{◌*◌, ◌^◌, ◌-◌, ◌≤◌, ◌<◌, ◌≡◌, ◌⊎◌, refl, true, arith}
use linux_scheduler_comparis.Toy.Hackbench.Options.{Options, adjust_loops}
use linux_scheduler_comparis.Toy.Hackbench.Workers.{num_packets_of}

-- In an endless run of toy/hackbench.c with from 1 to 2 ^ 31 - 1 descriptors: for one or two
-- descriptors, a receiver takes as many packets as the senders of its group write to it; for more,
-- the product wraps, and it takes fewer.
pub num_packets_of-wraps :
    (o : Options)
    → o.is_infinite ≡ true
    → 0 < o.num_fds
    → o.num_fds < 2 ^ 31
    → ((o.num_fds ≤ 2)
        × (num_packets_of o.num_fds (adjust_loops o).loops ≡ o.num_fds * (adjust_loops o).loops))
      ⊎ ((2 < o.num_fds)
          × (num_packets_of o.num_fds (adjust_loops o).loops < o.num_fds * (adjust_loops o).loops))
unfolding adjust_loops
num_packets_of-wraps o h low high =
    let loops : (adjust_loops o).loops ≡ 2 ^ 31 - 1 = rw h refl in rw loops (omega arith)
