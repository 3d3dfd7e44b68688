-- ===== src/Examples/Curve.antt =====
-- Witnesses for the laws of the Hilbert curve.
use slash.Base.{suc, ◌+◌, ◌*◌, ◌≡◌, ◌↔◌, arith}
use slash.Base.Outcome.{done, ◌>>=◌}
use slash.Address.{Address, address, from_u128}
use slash.Address.Agree.{Agree}
use slash.Hilbert.{HilbertPoint, axis, ip_to_point, point_to_ip}
use slash.Hilbert.Neighbours.{apart}
use slash.Hilbert.Laws.{point_to_ip-ip_to_point, ip_to_point-point_to_ip}
use slash.Hilbert.Cells.{InOneCell, ip_to_point-InOneCell}
use slash.Hilbert.Numbers.{axis_number, ip_to_point-next}

abbrev documentation : Address
documentation = address 0x2001_0db8 0 0 1

abbrev neighbour : Address
neighbour = address 0x2001_0db8 0 0 2

abbrev corner : HilbertPoint
corner = record { x = axis 0 7; y = axis 0x8000_0000 3 }

point_to_ip-ip_to_point_example :
    (ip_to_point documentation >>= λ p. point_to_ip p) ≡ done documentation
point_to_ip-ip_to_point_example = point_to_ip-ip_to_point documentation (omega arith)

ip_to_point-point_to_ip_example : (point_to_ip corner >>= λ d. ip_to_point d) ≡ done corner
ip_to_point-point_to_ip_example = ip_to_point-point_to_ip corner (omega arith)

ip_to_point-InOneCell_example :
    (p : HilbertPoint) × (q : HilbertPoint) × (ip_to_point documentation ≡ done p)
    × (ip_to_point neighbour ≡ done q)
    × (Agree (2 * 63) documentation neighbour ↔ InOneCell 63 p q)
ip_to_point-InOneCell_example = ip_to_point-InOneCell 63 documentation neighbour (omega arith)

ip_to_point-next_example :
    (p : HilbertPoint) × (q : HilbertPoint) × (ip_to_point (from_u128 41) ≡ done p)
    × (ip_to_point (from_u128 (suc 41)) ≡ done q)
    × (apart (axis_number p.x) (axis_number q.x) + apart (axis_number p.y) (axis_number q.y) ≡ 1)
ip_to_point-next_example = ip_to_point-next 41 (omega arith)
