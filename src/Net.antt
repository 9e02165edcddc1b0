-- ===== src/Net.antt =====
-- The tools that use the network: port-scan, banner-grab, net-sweep, dns-resolve, port-check and
-- tls-inspect.
pub mod PortScan
pub mod Banner
pub mod Sweep
pub mod Resolve
pub mod Reach
pub mod Tls
