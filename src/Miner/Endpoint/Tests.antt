-- ===== src/Miner/Endpoint/Tests.antt =====
-- miner/endpoint_parse.h: the theorem on endpoints, applied at one, and runs on others.
use btx_miner.Common.{◌≡◌, refl, true, false, none, some, ◌++◌, arith, replicate}
use btx_miner.Miner.Version.{Text}
use btx_miner.Miner.Fields.{codes}
use btx_miner.Miner.Endpoint.{
  cut_first, cut_last, digits_value, stoi, pop_slashes, parse_pool_endpoint, split_host_port,
}
use btx_miner.Miner.Endpoint.Printed.{address, parse_pool_endpoint-address}

abbrev pool_host : Text
pool_host = codes "eu.pool"

parse_pool_endpoint-address_example :
    (parse_pool_endpoint (address pool_host 3333)
      ≡ some (record { host = pool_host; port = 3333; use_tls = false }))
    × (parse_pool_endpoint (codes "SSL" ++ (codes "://" ++ address pool_host 3333))
        ≡ some (record { host = pool_host; port = 3333; use_tls = true }))
    × (split_host_port (codes "SSL" ++ (codes "://" ++ (address pool_host 3333 ++ replicate 2 47)))
        ≡ some (pool_host, 3333))
parse_pool_endpoint-address_example =
    parse_pool_endpoint-address (codes "SSL") pool_host 3333 2
      (ground arith, (ground arith, (ground arith, tt)))
      (
        ground arith,
        (
          ground arith,
          (ground arith, (ground arith, (ground arith, (ground arith, (ground arith, tt))))),
        ),
      )
      (ground arith) (omega arith) (omega arith)

-- The alias of the public pool.
minebtx_endpoint :
    parse_pool_endpoint (codes "minebtx")
    ≡ some (record { host = codes "stratum.minebtx.com"; port = 3333; use_tls = false })
unfolding parse_pool_endpoint cut_first cut_last stoi digits_value
minebtx_endpoint = refl

-- What follows the digits of the port is not read.
tail_not_read :
    parse_pool_endpoint (codes "tls://eu.pool:80/x")
    ≡ some (record { host = pool_host; port = 80; use_tls = true })
unfolding parse_pool_endpoint cut_first cut_last stoi digits_value
tail_not_read = refl

port_above : parse_pool_endpoint (codes "eu.pool:65536") ≡ none
unfolding parse_pool_endpoint cut_first cut_last stoi digits_value
port_above = refl

proxy_slashes : split_host_port (codes "socks5://[::1]:1080//") ≡ some (codes "[::1]", 1080)
unfolding split_host_port pop_slashes cut_first cut_last stoi digits_value
proxy_slashes = refl
