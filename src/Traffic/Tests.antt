-- ===== src/Traffic/Tests.antt =====
-- The theorems about the traffic simulation at concrete runs.
use operating_systems_course.Common.{
  ◌≤ℤ◌, ◌≤◌, ◌-◌, ◌+◌, ◌≡◌, refl, true, false, [], pos, ◌+ℤ◌, ◌-ℤ◌, ◌⊎◌,
}
use operating_systems_course.Kernel.Semaphore.Contract.{after_down, after_up}
use operating_systems_course.Traffic.{
  ProducerAt, ConsumerAt, produce, north_road_producer, south_road_producer, consumer, down, up,
  flagperson_pid, north_road_pid, south_road_pid,
}
use operating_systems_course.Traffic.System.{Simulation, is_blocked, empty_road, initial, Run}
use operating_systems_course.Traffic.Mutex.{count}
use operating_systems_course.Traffic.Exclusion.{producer_asks, consumer_asks, Run-exclusive}
use operating_systems_course.Traffic.Slots.{InBounds}
use operating_systems_course.Traffic.Bounds.{Run-south_total}
use operating_systems_course.Traffic.Room.{Run-bounds}
use operating_systems_course.Traffic.Deadlock.{Run-no_deadlock}
use operating_systems_course.Traffic.Batch.{Leads, Batch, Run-Batch_ends}

-- The south producer has a car and has written it.
abbrev one_car : Simulation
one_car = record initial {
  road = record initial.road {
    south_road = record empty_road {
      car_arrived = true;
      write_index = 1;
      counter = pos 1;
      total = 1;
    };
    south_sem_empty = (pos 9, []);
    sem_mutex = (pos 0, []);
  };
  south_at = ProducerAt.leaves;
}

one_car-Run : Run one_car
unfolding south_road_producer produce is_blocked down after_down ◌-ℤ◌ ◌+ℤ◌
one_car-Run =
    Run.south_step false
      (Run.south_step false
        (Run.south_step false (Run.south_step true Run.start refl refl) refl refl) refl refl)
      refl refl

Run-bounds_example :
    InBounds one_car.road.north_road
    × InBounds one_car.road.south_road
    × (pos 0 ≤ℤ one_car.road.north_road.counter)
    × (one_car.road.north_road.counter ≤ℤ pos 20)
    × (pos 0 ≤ℤ one_car.road.south_road.counter)
    × (one_car.road.south_road.counter ≤ℤ pos 10)
Run-bounds_example = Run-bounds one_car one_car-Run

Run-south_total_example : one_car.road.south_road.total ≤ 10
Run-south_total_example = Run-south_total one_car one_car-Run

Run-exclusive_example :
    (consumer_asks one_car.flagperson_at - count flagperson_pid one_car.road.sem_mutex.1)
      + ((producer_asks one_car.north_at - count north_road_pid one_car.road.sem_mutex.1)
          + (producer_asks one_car.south_at - count south_road_pid one_car.road.sem_mutex.1))
    ≤ 1
Run-exclusive_example = Run-exclusive one_car one_car-Run

Run-no_deadlock_example :
    (is_blocked flagperson_pid one_car.road ≡ false)
    ⊎ (is_blocked north_road_pid one_car.road ≡ false)
    ⊎ (is_blocked south_road_pid one_car.road ≡ false)
Run-no_deadlock_example = Run-no_deadlock one_car one_car-Run

-- The north producer has signalled a car, and the flag person has the mutex to let it go.
abbrev flagged : Simulation
flagged = record initial {
  road = record initial.road {
    north_road = record empty_road {
      car_arrived = true;
      write_index = 1;
      counter = pos 1;
      total = 1;
    };
    north_sem_empty = (pos 9, []);
    sem_mutex = (pos 0, []);
  };
  flagperson_at = ConsumerAt.north_lets_go;
}

flagged-Run : Run flagged
unfolding north_road_producer consumer produce is_blocked down up after_down after_up ◌-ℤ◌ ◌+ℤ◌
flagged-Run =
    Run.flagperson_step
      (Run.flagperson_step
        (Run.flagperson_step
          (Run.flagperson_step
            (Run.north_step false
              (Run.north_step false
                (Run.north_step false
                  (Run.north_step false
                    (Run.north_step false (Run.north_step true Run.start refl refl) refl refl) refl
                    refl)
                  refl refl)
                refl refl)
              refl refl)
            refl refl)
          refl refl)
        refl refl)
      refl refl

Run-Batch_ends_example : Leads 1 ConsumerAt.north_lets_go ConsumerAt.north_leaves flagged.road
Run-Batch_ends_example =
    Run-Batch_ends flagged ConsumerAt.north_leaves 1 flagged-Run (Batch.north refl)
