-- ===== src/Network/Manager.antt =====
-- internal/network/network.go: the manager passes each call on to its allocator.
use helios_lb.Prelude.{Text, Result}
use helios_lb.Network.Allocator.{
  IpAllocator, AllocError, new_ip_allocator, allocate_ip, allocate_specific_ip, mark_used,
  release_ip,
}

pub record NetworkManager : Type 0 where
  pub ip_allocator : IpAllocator

unfoldable pub new_network_manager : NetworkManager
unfolding new_ip_allocator
new_network_manager = record { ip_allocator = new_ip_allocator }

-- The manager behind a call of the allocator.
abbrev managed : Result AllocError Text × IpAllocator → Result AllocError Text × NetworkManager
managed m = (m.0, record { ip_allocator = m.1 })

unfoldable pub manager_allocate : NetworkManager → Text → Result AllocError Text × NetworkManager
manager_allocate nm r = managed (allocate_ip nm.ip_allocator r)

unfoldable pub manager_allocate_specific :
    NetworkManager → Text → Text → Result AllocError Text × NetworkManager
manager_allocate_specific nm r q = managed (allocate_specific_ip nm.ip_allocator r q)

unfoldable pub manager_mark_used : NetworkManager → Text → NetworkManager
manager_mark_used nm ip = record { ip_allocator = mark_used nm.ip_allocator ip }

unfoldable pub manager_release : NetworkManager → Text → NetworkManager
manager_release nm ip = record { ip_allocator = release_ip nm.ip_allocator ip }
